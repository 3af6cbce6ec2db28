-- ===== src/Server/Verify/Admitted.antt =====
-- `handleVerify` as a whole: what lets a request through, and how soon a change is felt.
use vps_scaffold_auth.Common.{
  ℕ, ◌≡◌, refl, ap, ◌∙◌, ◌⊎◌, inl, inr, true, false, none, some, List, [], arith, Bool-cases,
  Option-cases, ◌==◌, Bytes, nat_eq, bytes_eq, pair_eq,
}
use vps_scaffold_auth.Session.{Identity}
use vps_scaffold_auth.Session.Manager.{needs_renew}
use vps_scaffold_auth.Server.Sends.{second_of}
use vps_scaffold_auth.Authz.Roles.{role_deny}
use vps_scaffold_auth.Server.Cutoffs.{World, read_live_session, groups_stale}
use vps_scaffold_auth.Server.Tier.{
  Gateway, Directory, policy_withdrawn, known_session_kind, passkey_still_valid, renewal_role,
  tier_stale,
}
use vps_scaffold_auth.Server.Verify.{
  VerifyRequest, passed, Visit, renew_session_with, renewed_groups, with_groups_now, renewal_due,
  verify_session, handle_verify,
}
use vps_scaffold_auth.Server.Verify.Passed.{
  Granted-moved, Decided, renewed_same, apply_policy-Decided,
}

-- No renewal is called for: the session is young enough, no membership change has come since it was
-- issued, and its groups are those of the person's present tier.
pub record NotDue (g : Gateway) (w : World) (id : Identity) (now : ℕ) : Type 0 where
  pub young : needs_renew g.manager id now ≡ false
  pub unchanged : groups_stale w.cutoffs id ≡ false
  pub same_tier : tier_stale g id now ≡ false

-- A session of a known kind, whose person the policy has not withdrawn, is granted what the header
-- requires; and one that a renewal is called for is decided on the groups of the renewal. The time is in
-- seconds.
abbrev pub Passes :
    Gateway → Directory → World → VerifyRequest → Identity → ℕ → List Visit → Bytes → Bytes → Type 0
Passes g d w r id now audit email groups =
    (known_session_kind id.kind ≡ true)
    × (policy_withdrawn g id ≡ false)
    × Decided g d r id audit email groups
    × (NotDue g w id now
        ⊎ ((passkey_still_valid d id ≡ true)
            × (groups
                ≡ (with_groups_now g d
                    (record id { groups = renewed_groups g d id now none })).groups)))

not_withdrawn :
    (g : Gateway) (id : Identity)
    → (renewal_role g id == role_deny) ≡ false
    → policy_withdrawn g id ≡ false
unfolding policy_withdrawn
not_withdrawn g id h = ground arith

not_due :
    (g : Gateway) (w : World) (id : Identity) (now : ℕ)
    → renewal_due g w id now ≡ false
    → (policy_withdrawn g id ≡ false) × NotDue g w id now
unfolding renewal_due
not_due g w id now h = (
  ground arith,
  record { young = ground arith; unchanged = ground arith; same_tier = ground arith },
)

verify_session-Passes :
    (g : Gateway) (d : Directory) (w : World) (r : VerifyRequest) (id : Identity) (now : ℕ)
    (email groups : Bytes)
    → (verify_session g d w r id now).1.verdict ≡ passed email groups
    → Passes g d w r id (second_of now) (verify_session g d w r id now).1.audit email groups
unfolding verify_session
verify_session-Passes g d w r id now email groups h =
    elim (Bool-cases (known_session_kind id.kind)) [
      | inr k ↦ absurd (ground arith)
      | inl k ↦ elim (Bool-cases (renewal_due g w id (second_of now))) [
        | inr q ↦
            let (decided, kept) =
              apply_policy-Decided g d w r id false [] now email groups
                (rw (k, q, verify_session) at h) in
            let (kept_on, n) = not_due g w id (second_of now) q in
            (k, kept_on, rw (k, q, verify_session) decided, inl n)
        | inl q ↦ elim (Option-cases (renew_session_with g d [] id (second_of now) none).1) [
          | inl n ↦ absurd (ground arith)
          | inr (id', n) ↦
              let (same, live, held) = renewed_same g d [] id id' (second_of now) none n in
              let h' = rw (k, q, n, verify_session) at h in
              let ((p, e, granted), kept) =
                apply_policy-Decided g d w r id' true _ now email groups h' in
              (
                k,
                not_withdrawn g id live,
                (
                  p,
                  e,
                  rw (k, q, n, verify_session)
                      (Granted-moved r id' id p _ email groups (ap (λ x. x.email) same)
                        (ap (λ x. x.kind) same) granted),
                ),
                inr (held, kept refl ∙ ap (λ x. (with_groups_now g d x).groups) same),
              )
        ]
      ]
    ]

-- A request is passed on to its site only for a session that is read from its cookies, has not
-- ended, is of a known kind and is not withdrawn by the policy; its policy header must be well formed and
-- admit the session's person with the very groups the site is told, and the visit is audited. The session must
-- be young enough, with no membership change since it was issued and a tier that has not changed;
-- or else the passkey that started it, if one did, still exists, and the groups are worked out for the
-- request from the store's, a guest's filtered.
pub verify_passed :
    (g : Gateway) (d : Directory) (w : World) (r : VerifyRequest) (now : ℕ) (email groups : Bytes)
    → (handle_verify g d w r now).1.verdict ≡ passed email groups
    → (id : Identity) × (read_live_session g.manager g.session_max_age w.cutoffs r.cookies
          (second_of now)
        ≡ some id)
      × Passes g d w r id (second_of now) (handle_verify g d w r now).1.audit email groups
unfolding handle_verify
verify_passed g d w r now email groups h =
    elim (Option-cases
      (read_live_session g.manager g.session_max_age w.cutoffs r.cookies (second_of now))) [
        | inl e ↦ absurd (ground arith)
        | inr (id, e) ↦ (
          id,
          e,
          rw (e, handle_verify)
              (verify_session-Passes g d w r id now email groups (rw (e, handle_verify) at h)),
        )
      ]
