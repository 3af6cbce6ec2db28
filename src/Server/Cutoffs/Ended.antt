-- ===== src/Server/Cutoffs/Ended.antt =====
-- What ending a principal's sessions does to the sessions that are read afterwards.
use vps_scaffold_auth.Common.{
  ℕ, ◌≤◌, ◌<◌, ◌≡◌, ap, ◌≢◌, inl, inr, true, not, ◌&&◌, some, List, [], ◌∷◌, arith, ltb, Bool-cases,
  Option-cases, ◌==◌, Bytes, bytes_beq_iff, nat_eq, bytes_eq, pair_eq, beq_refl,
}
use vps_scaffold_auth.Common.Table.{lookup}
use vps_scaffold_auth.Server.Cutoffs.{
  SessionCutoffs, World, or_zero, groups_key, raise_cutoff, end_sessions, mark_groups_changed,
  session_ended, groups_stale, signed_in_at, card_key, passkey_key,
}
use vps_scaffold_auth.Server.Cutoffs.Restart.{
  Change, ends, groups, apply, apply_each, lookup-raise_cutoff,
}
use vps_scaffold_auth.Session.{Identity, kind_break_glass}

-- The key's sessions have ended up to the time, at least.
abbrev pub Reaches : SessionCutoffs → Bytes → ℕ → Type 0
Reaches c key t = (at : ℕ) × (lookup key c.ended ≡ some at) × (t ≤ at)

apply-Reaches :
    (w : World) (c : Change) (key : Bytes) (t : ℕ)
    → Reaches w.cutoffs key t
    → Reaches (apply w c).cutoffs key t
unfolding apply end_sessions mark_groups_changed
apply-Reaches w (ends k now) key t (at, e, h) =
    elim (Bool-cases (k == key && ltb (or_zero (lookup k w.cutoffs.ended)) now)) [
      | inl q ↦ (
        now,
        ground (arith, lookup-raise_cutoff w.cutoffs k key now),
        ground (arith, bytes_beq_iff k key, e),
      )
      | inr q ↦ (at, ground (arith, lookup-raise_cutoff w.cutoffs k key now, e), h)
    ]
apply-Reaches w (groups g) key t (at, e, h) = (at, ground (arith, e), h)

apply_each-Reaches :
    (w : World) (cs : List Change) (key : Bytes) (t : ℕ)
    → Reaches w.cutoffs key t
    → Reaches (apply_each w cs).cutoffs key t
unfolding apply_each
apply_each-Reaches w [] key t h = h
apply_each-Reaches w (c ∷ cs) key t h =
    apply_each-Reaches (apply w c) cs key t (apply-Reaches w c key t h)

end_sessions-Reaches :
    (w : World) (key : Bytes) (t : ℕ) → 0 < t → Reaches (end_sessions w key t).cutoffs key t
unfolding end_sessions
end_sessions-Reaches w key t pos =
    elim (Bool-cases (ltb (or_zero (lookup key w.cutoffs.ended)) t)) [
      | inl q ↦
          (t, ground (arith, lookup-raise_cutoff w.cutoffs key key t, beq_refl key), omega arith)
      | inr q ↦ elim (Option-cases (lookup key w.cutoffs.ended)) [
        | inl e ↦ absurd (ground arith)
        | inr (at, e) ↦ (
          at,
          ground (arith, lookup-raise_cutoff w.cutoffs key key t, beq_refl key),
          ground arith,
        )
      ]
    ]

-- The key names the session's person, or the passkey that started it, or its card; and for a
-- person or a card, the sign-in was at the time or before.
pub data Names (id : Identity) (key : Bytes) (t : ℕ) : Type 0 where
  by_email : key ≡ id.email → id.email ≢ groups_key → signed_in_at id ≤ t → Names id key t
  by_passkey : key ≡ passkey_key id.pk → id.pk ≢ 0 → Names id key t
  by_card :
      key ≡ card_key id.card
      → id.card ≢ 0
      → id.kind ≡ kind_break_glass
      → signed_in_at id ≤ t
      → Names id key t

reached_ended :
    (c : SessionCutoffs) (id : Identity) (key : Bytes) (t max_age now : ℕ)
    → Names id key t
    → Reaches c key t
    → session_ended max_age c id now ≡ true
unfolding session_ended
reached_ended c id key t max_age now (by_email same apart early) (at, e, h) =
    ground (arith, bytes_beq_iff id.email groups_key, ap (λ k. lookup k c.ended) same)
reached_ended c id key t max_age now (by_passkey same some_pk) (at, e, h) =
    ground (arith, ap (λ k. lookup k c.ended) same)
reached_ended c id key t max_age now (by_card same some_card kind early) (at, e, h) =
    ground (arith, bytes_beq_iff id.kind kind_break_glass, ap (λ k. lookup k c.ended) same)

-- Once the sessions of a person, a passkey or a card have been ended, and whatever is ended or
-- changed after that, every session of that person or card whose sign-in was not later, and every
-- session that the passkey started, has ended, whatever the time of the request.
pub end_sessions_lasts :
    (w : World) (cs : List Change) (id : Identity) (key : Bytes) (t max_age now : ℕ)
    → 0 < t
    → Names id key t
    → session_ended max_age (apply_each (end_sessions w key t) cs).cutoffs id now ≡ true
end_sessions_lasts w cs id key t max_age now pos named =
    reached_ended (apply_each (end_sessions w key t) cs).cutoffs id key t max_age now named
      (apply_each-Reaches (end_sessions w key t) cs key t (end_sessions-Reaches w key t pos))

raised_changed :
    (c : SessionCutoffs) (key : Bytes) (t : ℕ)
    → (raise_cutoff c key t).groups_changed_at ≡ c.groups_changed_at
unfolding raise_cutoff
raised_changed c key t = ground arith

-- Ending the sessions of one key changes nothing for a session that the key does not name: neither
-- whether it has ended nor whether its groups are stale.
pub end_sessions_frame :
    (w : World) (id : Identity) (key : Bytes) (t max_age now : ℕ)
    → key ≢ id.email
    → key ≢ passkey_key id.pk
    → key ≢ card_key id.card
    → (session_ended max_age (end_sessions w key t).cutoffs id now
        ≡ session_ended max_age w.cutoffs id now)
      × (groups_stale (end_sessions w key t).cutoffs id ≡ groups_stale w.cutoffs id)
unfolding session_ended groups_stale end_sessions
end_sessions_frame w id key t max_age now e p c = (
  ground (
    arith,
    lookup-raise_cutoff w.cutoffs key id.email t,
    lookup-raise_cutoff w.cutoffs key (passkey_key id.pk) t,
    lookup-raise_cutoff w.cutoffs key (card_key id.card) t,
    bytes_beq_iff key id.email,
    bytes_beq_iff key (passkey_key id.pk),
    bytes_beq_iff key (card_key id.card),
  ),
  rw (raised_changed w.cutoffs key t),
)

apply_each-groups :
    (w : World) (cs : List Change) (t : ℕ)
    → t ≤ w.cutoffs.groups_changed_at
    → t ≤ (apply_each w cs).cutoffs.groups_changed_at
unfolding apply_each apply end_sessions mark_groups_changed raise_cutoff
apply_each-groups w [] t h = h
apply_each-groups w (ends k now ∷ cs) t h =
    apply_each-groups (end_sessions w k now) cs t (ground arith)
apply_each-groups w (groups at ∷ cs) t h =
    apply_each-groups (mark_groups_changed w at) cs t (ground arith)

-- Once memberships have changed, and whatever is ended or changed after that, every session but a
-- break-glass one whose groups were worked out at that second or before is stale; a break-glass
-- session never is.
pub groups_change_lasts :
    (w : World) (cs : List Change) (id : Identity) (t : ℕ)
    → 0 < t
    → id.iat ≤ t
    → groups_stale (apply_each (mark_groups_changed w t) cs).cutoffs id
      ≡ not (id.kind == kind_break_glass)
unfolding groups_stale mark_groups_changed
groups_change_lasts w cs id t pos early =
    let h = apply_each-groups (mark_groups_changed w t) cs t (ground arith) in ground arith
