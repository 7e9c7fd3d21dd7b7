-- ===== src/Campaign/Exactness.antt =====
-- When `authorize_campaign` of src/risi/campaign.py allows a campaign.
use risi.Prelude.{
  ℕ, ◌≤◌, ◌≡◌, ◌↔◌, Bool, true, not, ◌&&◌, some, List, [], ◌==◌, eq_iff, arith, ltb, ◌||◌, String,
  filter, sym, ◌∙◌, ap₂,
}
use risi.Prelude.Failure.{ok}
use risi.Canonical.Digest.{Hasher}
use risi.Operator.Safety.{
  AuthorizationDecision, subset, no_reasons, reason_if, has, sort_capabilities,
}
use risi.Operator.Safety.Exactness.{
  SameCapabilities, SameCapabilities-of_subsets, subset-of_SameCapabilities,
}
use risi.External.{ExternalTargetManifest, target_digest}
use risi.Campaign.{Calendar, CampaignManifest, CampaignApproval, campaign_digest}
use risi.Campaign.Authorization.{
  campaign_capabilities, is_expired, is_for_purpose, campaign_approval_reasons, target_reasons,
  approval_reason_codes, authorize_campaign, day, purpose_reason,
}

-- What it means that an approval covers a campaign on a day, with no reference to reason codes: its
-- three digests are those of the contracts, it names the capabilities of a campaign, neither
-- contract has run out, and it is for what the manifest is for.
pub record IsCovered (h : Hasher) (today lasts ends : ℕ) (m : CampaignManifest)
    (t : ExternalTargetManifest) (a : CampaignApproval) : Type 0 where
  pub target : m.target_manifest_sha256 ≡ target_digest h t
  pub approved_target : a.target_manifest_sha256 ≡ target_digest h t
  pub approved_manifest : a.campaign_manifest_sha256 ≡ campaign_digest h m
  pub approved_input : a.input_inventory_sha256 ≡ m.input_inventory_sha256
  pub scope : SameCapabilities a.capabilities campaign_capabilities
  pub approval_current : today ≤ lasts
  pub manifest_current : today ≤ ends
  pub purpose : is_for_purpose m a ≡ true

split_and : (x y : Bool) → (x && y) ≡ true → (x ≡ true) × (y ≡ true)
split_and x y h = (ground arith, ground arith)

day_lem : (cal : Calendar) (s : String) (d : ℕ) → cal.from_iso s ≡ some d → day cal s ≡ ok d
day_lem cal s d e = rw (day, e)

no_reasons-seven :
    (a b c d e f g : Bool) (p q r s t u v : String)
    → no_reasons (
        reason_if (not a) p (
          reason_if (not b) q (
            reason_if (not c) r (
              reason_if (not d) s (reason_if (not e) t (reason_if f u (reason_if (not g) v [])))))))
      ≡ (a && b && c && d && e && not f && g)
no_reasons-seven a b c d e f g p q r s t u v = ground arith

module _ (h : Hasher) (cal : Calendar) (today lasts ends : ℕ) (m : CampaignManifest)
    (t : ExternalTargetManifest) (a : CampaignApproval)
    (approval_day : cal.from_iso a.expires_on ≡ some lasts)
    (manifest_day : cal.from_iso m.expires_on ≡ some ends) where
  is_expired_lem :
      is_expired cal today a.expires_on m.expires_on ≡ ok (ltb lasts today || ltb ends today)
  unfolding is_expired
  is_expired_lem =
      rw (day_lem cal a.expires_on lasts approval_day, day_lem cal m.expires_on ends manifest_day)
        (ground arith)

  allowed_test :
      no_reasons (
        target_reasons h m t
          (campaign_approval_reasons h m t a (ltb lasts today || ltb ends today)))
      ≡ ((target_digest h t == m.target_manifest_sha256)
          && a.campaign_manifest_sha256 == campaign_digest h m
          && a.target_manifest_sha256 == target_digest h t
          && a.input_inventory_sha256 == m.input_inventory_sha256
          && (subset a.capabilities campaign_capabilities
              && subset campaign_capabilities a.capabilities)
          && not (ltb lasts today || ltb ends today)
          && is_for_purpose m a)
  unfolding target_reasons campaign_approval_reasons
  allowed_test =
      no_reasons-seven (target_digest h t == m.target_manifest_sha256)
        (a.campaign_manifest_sha256 == campaign_digest h m)
        (a.target_manifest_sha256 == target_digest h t)
        (a.input_inventory_sha256 == m.input_inventory_sha256)
        (subset a.capabilities campaign_capabilities && subset campaign_capabilities a.capabilities)
        (ltb lasts today || ltb ends today) (is_for_purpose m a) "target_manifest_mismatch"
        "approval_manifest_mismatch" "approval_target_mismatch" "approval_input_mismatch"
        "approval_scope_mismatch" "approval_expired" (purpose_reason m)

  abbrev reasons : List String
  reasons =
      target_reasons h m t (campaign_approval_reasons h m t a (ltb lasts today || ltb ends today))

  abbrev decision : AuthorizationDecision
  decision = record {
    allowed = no_reasons reasons;
    reason_codes = reasons;
    granted_capabilities = sort_capabilities (filter (has a.capabilities) campaign_capabilities);
  }

  authorize-decision : authorize_campaign h cal today m t (some a) ≡ ok decision
  unfolding authorize_campaign approval_reason_codes
  authorize-decision = rw is_expired_lem

  tests→IsCovered :
      ((target_digest h t == m.target_manifest_sha256)
          && a.campaign_manifest_sha256 == campaign_digest h m
          && a.target_manifest_sha256 == target_digest h t
          && a.input_inventory_sha256 == m.input_inventory_sha256
          && (subset a.capabilities campaign_capabilities
              && subset campaign_capabilities a.capabilities)
          && not (ltb lasts today || ltb ends today)
          && is_for_purpose m a)
        ≡ true
      → IsCovered h today lasts ends m t a
  tests→IsCovered c =
      let (r6, c7) = split_and _ (is_for_purpose m a) c in
      let (r5, c6) = split_and _ (not (ltb lasts today || ltb ends today)) r6 in
      let (r4, c5) =
        split_and _
          (subset a.capabilities campaign_capabilities
            && subset campaign_capabilities a.capabilities)
          r5 in
      let (r3, c4) = split_and _ (a.input_inventory_sha256 == m.input_inventory_sha256) r4 in
      let (r2, c3) = split_and _ (a.target_manifest_sha256 == target_digest h t) r3 in
      let (c1, c2) = split_and _ (a.campaign_manifest_sha256 == campaign_digest h m) r2 in
      let (s1, s2) =
        split_and (subset a.capabilities campaign_capabilities)
          (subset campaign_capabilities a.capabilities) c5 in
      record {
        target = sym ((eq_iff (target_digest h t) m.target_manifest_sha256).0 c1);
        approved_target = (eq_iff a.target_manifest_sha256 (target_digest h t)).0 c3;
        approved_manifest = (eq_iff a.campaign_manifest_sha256 (campaign_digest h m)).0 c2;
        approved_input = (eq_iff a.input_inventory_sha256 m.input_inventory_sha256).0 c4;
        scope = SameCapabilities-of_subsets a.capabilities campaign_capabilities s1 s2;
        approval_current = (current lasts ends c6).0;
        manifest_current = (current lasts ends c6).1;
        purpose = c7;
      }
    where
      current : (d e : ℕ) → not (ltb d today || ltb e today) ≡ true → (today ≤ d) × (today ≤ e)
      current d e c = (ground arith, ground arith)

  IsCovered→allowed : IsCovered h today lasts ends m t a → no_reasons reasons ≡ true
  IsCovered→allowed c =
      let (s1, s2) = subset-of_SameCapabilities a.capabilities campaign_capabilities c.scope in
      allowed_test
      ∙ ap₂ ◌&&◌
          (ap₂ ◌&&◌
            (ap₂ ◌&&◌
              (ap₂ ◌&&◌
                (ap₂ ◌&&◌
                  (ap₂ ◌&&◌ ((eq_iff (target_digest h t) m.target_manifest_sha256).1 (sym c.target))
                    ((eq_iff a.campaign_manifest_sha256 (campaign_digest h m)).1
                      c.approved_manifest))
                  ((eq_iff a.target_manifest_sha256 (target_digest h t)).1 c.approved_target))
                ((eq_iff a.input_inventory_sha256 m.input_inventory_sha256).1 c.approved_input))
              (ap₂ ◌&&◌ s1 s2))
            (current lasts ends c.approval_current c.manifest_current))
          c.purpose
    where
      current : (d e : ℕ) → today ≤ d → today ≤ e → not (ltb d today || ltb e today) ≡ true
      current d e p q = ground arith

  -- If the two expiry dates are dates, the authorization of a campaign returns a decision, which is
  -- allowed exactly if the approval covers the campaign on that day.
  pub authorize_campaign-iff_IsCovered :
      (d : AuthorizationDecision) × (authorize_campaign h cal today m t (some a) ≡ ok d)
      × ((d.allowed ≡ true) ↔ IsCovered h today lasts ends m t a)
  authorize_campaign-iff_IsCovered = (
    decision,
    authorize-decision,
    ((λ c. tests→IsCovered (sym allowed_test ∙ c)), IsCovered→allowed),
  )
