-- ===== src/Campaign/Preflight/Authority.antt =====
-- A preflight does not pass without authority (`campaign_preflight` of src/risi/campaign.py).
use risi.Prelude.{
  ℕ, ◌≤◌, ◌≡◌, refl, ap, ◌∙◌, Bool, true, false, not, ◌&&◌, Option, some, leb, arith,
}
use risi.Prelude.Failure.{Error, Result, ok, err, raise_if}
use risi.Prelude.Exec.{Exec, >>=-returns, >>-returns}
use risi.Canonical.{Json, Fields}
use risi.Canonical.Digest.{Hasher}
use risi.Operator.Safety.{AuthorizationDecision}
use risi.External.{ExternalKnowledgeAdapter, ExternalTargetManifest}
use risi.Campaign.{Calendar, CampaignManifest, CampaignApproval, PreflightResult}
use risi.Campaign.Authorization.{authorize_campaign}
use risi.Campaign.Preflight.{
  attempt_ceiling, within_attempts, geometry_allowed, initial_checks, has_passed, passed_before,
  last_check, set_field, preflight_result, run_checks, campaign_preflight,
}

-- The campaign is authorized on that day, and the attempt is one of those that were approved.
pub record HasAuthority (h : Hasher) (cal : Calendar) (today : ℕ) (m : CampaignManifest)
    (t : ExternalTargetManifest) (a : Option CampaignApproval) (attempt : ℕ) : Type 0 where
  pub decision : AuthorizationDecision
  pub decided : authorize_campaign h cal today m t a ≡ ok decision
  pub allowed : decision.allowed ≡ true
  pub shaped : geometry_allowed m ≡ true
  pub first : 1 ≤ attempt
  pub last : attempt ≤ attempt_ceiling a

abbrev passed_of : Result PreflightResult → Bool
passed_of (ok r) = r.passed
passed_of (err error) = false

both_left : (x y : Bool) → (x && y) ≡ true → x ≡ true
both_left x y e = ground arith

both_right : (x y : Bool) → (x && y) ≡ true → y ≡ true
both_right x y e = ground arith

raise_if-false :
    (test : Bool) (error : Error) (u : Unit {0}) → raise_if test error ≡ ok u → test ≡ false
raise_if-false true error u e = cc
raise_if-false false error u e = refl

module _ {W : Type 0} (adapter : ExternalKnowledgeAdapter W)
    (validation_runner : ExternalKnowledgeAdapter W → Exec W Fields) (h : Hasher) (cal : Calendar)
    (today : ℕ) (m : CampaignManifest) (t : ExternalTargetManifest) (a : Option CampaignApproval)
    (attempt : ℕ) where
  -- Where the validation did not run, nothing passes.
  abbrev unchecked_checks : AuthorizationDecision → Bool → Fields
  unchecked_checks d geometry =
      set_field "validation_passed" (Json.bool false) (initial_checks m t d geometry)

  last_false : (b p : Bool) → last_check b (some (Json.bool false)) ≡ ok p → p ≡ false
  last_false true p e = cc
  last_false false p e = cc

  unchecked :
      (d : AuthorizationDecision) (geometry p : Bool)
      → has_passed (unchecked_checks d geometry) ≡ ok p
      → p ≡ false
  unfolding has_passed initial_checks
  unchecked d geometry p e = last_false (passed_before (unchecked_checks d geometry)) p e

  -- The validation ran, where something passed.
  ran :
      (b : Bool) (d : AuthorizationDecision) (geometry p : Bool) (s : W) (checks : Fields)
      → (run_checks adapter validation_runner b m (initial_checks m t d geometry) s).0 ≡ ok checks
      → has_passed checks ≡ ok p
      → p ≡ true
      → b ≡ true
  unfolding run_checks
  ran true d geometry p s checks r e passed = refl
  ran false d geometry p s checks r e passed =
      let e' : has_passed (unchecked_checks d geometry) ≡ ok p = ap_has_passed checks r ∙ e in
      elim (clash p passed (unchecked d geometry p e')) [ ]
    where
      ap_has_passed :
          (c : Fields)
          → ok (unchecked_checks d geometry) ≡ ok c
          → has_passed (unchecked_checks d geometry) ≡ has_passed c
      ap_has_passed c q = cc

      clash : (p : Bool) → p ≡ true → p ≡ false → ⊥
      clash p x y = cc

  flag :
      (p : Bool) (checks : Fields) (r : PreflightResult)
      → ok (preflight_result h m t attempt checks p) ≡ ok r
      → p ≡ r.passed
  unfolding preflight_result
  flag p checks r e = ap passed_of e

  attempts_fit :
      not (within_attempts attempt a) ≡ false → (1 ≤ attempt) × (attempt ≤ attempt_ceiling a)
  attempts_fit e = fit (attempt_ceiling a) e
    where
      fit : (c : ℕ) → not (leb 1 attempt && leb attempt c) ≡ false → (1 ≤ attempt) × (attempt ≤ c)
      fit c e = (ground arith, ground arith)

  -- If a preflight returns and has passed, then the campaign is authorized on that day by the
  -- approval that was given, its geometry is one that its purpose allows, and the attempt is within
  -- the approved ones, whatever the validation runner and the target answer.
  pub campaign_preflight-HasAuthority :
      (s s' : W) (r : PreflightResult)
      → campaign_preflight adapter validation_runner h cal today m t a attempt s ≡ (ok r, s')
      → r.passed ≡ true
      → HasAuthority h cal today m t a attempt
  unfolding campaign_preflight
  campaign_preflight-HasAuthority s s' r returned passed =
      let (d, r1, h1) = >>=-returns _ _ s s' r returned in
      let (u, r2, h2) = >>-returns _ _ s s' r h1 in
      let (geometry, r3, h3) = >>=-returns _ _ s s' r h2 in
      let (checks, r4, h4) = >>=-returns _ _ s s' r h3 in
      let (p, r5, h5) = >>=-returns _ _ _ s' r h4 in
      let b =
        ran (d.allowed && geometry_allowed m) d geometry p s checks r4 r5
          (flag p checks r (ap (λ e. e.0) h5) ∙ passed) in
      let attempts = raise_if-false (not (within_attempts attempt a)) _ u r2 in
      record {
        decision = d;
        decided = r1;
        allowed = both_left d.allowed (geometry_allowed m) b;
        shaped = both_right d.allowed (geometry_allowed m) b;
        first = (attempts_fit attempts).0;
        last = (attempts_fit attempts).1;
      }
