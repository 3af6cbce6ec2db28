-- ===== src/Server/Cutoffs/Restart.antt =====
-- What a restart reads back of the times held in memory.
use vps_scaffold_auth.Common.{
  ℕ, ◌<◌, max, ◌≡◌, refl, ◌≢◌, inl, inr, ◌&&◌, Option, none, some, List, [], ◌∷◌, arith, ltb,
  if◌then◌else◌, Option-cases, ◌==◌, Bytes, bytes_beq_iff, nat_eq, bytes_eq, pair_eq, beq_refl,
}
use vps_scaffold_auth.Common.Table.{Table, lookup, lookup-insert}
use vps_scaffold_auth.Server.Cutoffs.{
  SessionCutoffs, World, or_zero, groups_key, new_session_cutoffs, raise_cutoff, end_sessions,
  mark_groups_changed, session_ended, groups_stale, card_key, passkey_key,
}
use vps_scaffold_auth.Server.Cutoffs.Keys.{keys_apart}
use vps_scaffold_auth.Server.Recheck.{GroupRecheck}
use vps_scaffold_auth.Session.{Identity}
use vps_scaffold_auth.Store.Sessions.{end_sessions_before, list_session_cutoffs}

-- A call of `endSessions` or of `markGroupsChanged`.
pub data Change : Type 0 where
  ends : Bytes → ℕ → Change
  groups : ℕ → Change

unfoldable pub apply : World → Change → World
apply w (ends key now) = end_sessions w key now
apply w (groups at) = mark_groups_changed w at

unfoldable pub apply_each : World → List Change → World
apply_each w [] = w
apply_each w (c ∷ cs) = apply_each (apply w c) cs

-- A person or a card is named by another key than the membership change's, and the clock has left
-- the start of time.
unfoldable pub IsSound : Change → Type 0
IsSound (ends key now) = (key ≢ groups_key) × (0 < now)
IsSound (groups at) = 0 < at

unfoldable pub AllSound : List Change → Type 0
AllSound [] = Unit
AllSound (c ∷ cs) = IsSound c × AllSound cs

-- What is held in memory answers each lookup as the database would.
pub record Mirrors (w : World) : Type 0 where
  pub same : (key : Bytes) → key ≢ groups_key → lookup key w.cutoffs.ended ≡ lookup key w.stored
  pub changed : w.cutoffs.groups_changed_at ≡ or_zero (lookup groups_key w.stored)
  pub positive : (key : Bytes) (at : ℕ) → lookup key w.stored ≡ some at → 0 < at

abbrev raised : Option ℕ → ℕ → ℕ
raised none at = at
raised (some old) at = max old at

lookup-end_sessions_before :
    (t : Table Bytes ℕ) (key k : Bytes) (at : ℕ)
    → lookup k (end_sessions_before t key at)
      ≡ (if key == k then some (raised (lookup key t) at) else lookup k t)
unfolding end_sessions_before
lookup-end_sessions_before t key k at = elim (Option-cases (lookup key t)) [
  | inl e ↦ ground (arith, lookup-insert key k at t)
  | inr (old, e) ↦ ground (arith, lookup-insert key k (max old at) t)
]

pub lookup-raise_cutoff :
    (c : SessionCutoffs) (key k : Bytes) (now : ℕ)
    → lookup k (raise_cutoff c key now).ended
      ≡ (if key == k && ltb (or_zero (lookup key c.ended)) now then some now else lookup k c.ended)
unfolding raise_cutoff
lookup-raise_cutoff c key k now = ground (arith, lookup-insert key k now c.ended)

apply-Mirrors : (w : World) (c : Change) → Mirrors w → IsSound c → Mirrors (apply w c)
unfolding apply end_sessions mark_groups_changed raise_cutoff IsSound
apply-Mirrors w (ends key now) m sound = record {
  same = λ k apart. elim (Option-cases (lookup key w.stored)) [
    | inl e ↦ ground (
      arith,
      lookup-raise_cutoff w.cutoffs key k now,
      lookup-end_sessions_before w.stored key k now,
      m.same key sound.0,
      m.same k apart,
      bytes_beq_iff key k,
      sound.1,
    )
    | inr (old, e) ↦ ground (
      arith,
      lookup-raise_cutoff w.cutoffs key k now,
      lookup-end_sessions_before w.stored key k now,
      m.same key sound.0,
      m.same k apart,
      bytes_beq_iff key k,
      m.positive key old e,
    )
  ];
  changed = ground (
    arith,
    lookup-end_sessions_before w.stored key groups_key now,
    bytes_beq_iff key groups_key,
    m.changed,
    sound.0,
  );
  positive = λ k at e. elim (Option-cases (lookup key w.stored)) [
    | inl q ↦
        ground (arith, lookup-end_sessions_before w.stored key k now, m.positive k at, sound.1)
    | inr (old, q) ↦ ground (
      arith,
      lookup-end_sessions_before w.stored key k now,
      m.positive k at,
      m.positive key old q,
    )
  ];
}
apply-Mirrors w (groups at) m sound = record {
  same = λ k apart. ground (
    arith,
    lookup-end_sessions_before w.stored groups_key k at,
    bytes_beq_iff groups_key k,
    m.same k apart,
    apart,
  );
  changed = elim (Option-cases (lookup groups_key w.stored)) [
    | inl q ↦ ground (
      arith,
      lookup-end_sessions_before w.stored groups_key groups_key at,
      beq_refl groups_key,
      m.changed,
      sound,
    )
    | inr (old, q) ↦ ground (
      arith,
      lookup-end_sessions_before w.stored groups_key groups_key at,
      beq_refl groups_key,
      m.changed,
    )
  ];
  positive = λ k t e. elim (Option-cases (lookup groups_key w.stored)) [
    | inl q ↦
        ground (arith, lookup-end_sessions_before w.stored groups_key k at, m.positive k t, sound)
    | inr (old, q) ↦ ground (
      arith,
      lookup-end_sessions_before w.stored groups_key k at,
      m.positive k t,
      m.positive groups_key old q,
    )
  ];
}

apply_each-Mirrors :
    (w : World) (cs : List Change) → Mirrors w → AllSound cs → Mirrors (apply_each w cs)
unfolding apply_each AllSound
apply_each-Mirrors w [] m h = m
apply_each-Mirrors w (c ∷ cs) m h = apply_each-Mirrors (apply w c) cs (apply-Mirrors w c m h.0) h.1

-- the gateway's start on what the database holds
unfoldable pub start : Table Bytes ℕ → GroupRecheck → World
start stored recheck = record {
  stored = stored;
  cutoffs = new_session_cutoffs stored;
  group_recheck = recheck;
}

start-Mirrors :
    (stored : Table Bytes ℕ) (recheck : GroupRecheck)
    → ((key : Bytes) (at : ℕ) → lookup key stored ≡ some at → 0 < at)
    → Mirrors (start stored recheck)
unfolding start new_session_cutoffs list_session_cutoffs
start-Mirrors stored recheck h = record { same = λ k apart. refl; changed = refl; positive = h }

restarted :
    (w : World) (max_age now : ℕ) (id : Identity)
    → Mirrors w
    → (session_ended max_age (new_session_cutoffs w.stored) id now
        ≡ session_ended max_age w.cutoffs id now)
      × (groups_stale (new_session_cutoffs w.stored) id ≡ groups_stale w.cutoffs id)
unfolding session_ended groups_stale new_session_cutoffs list_session_cutoffs
restarted w max_age now id m = (
  ground (
    arith,
    m.same (passkey_key id.pk) (keys_apart id.pk 0).4,
    m.same (card_key id.card) (keys_apart id.card 0).3,
    m.same id.email,
    bytes_beq_iff id.email groups_key,
  ),
  ground (arith, m.changed),
)

-- However sessions are ended and memberships changed after the gateway's start, a gateway restarted
-- on the database decides of every session, whether it has ended and whether its groups are stale,
-- as the running one does. The stored times are assumed to be after the start of time, as those of
-- the changes are, and no principal's key is the membership change's.
pub restart_decides_alike :
    (stored : Table Bytes ℕ) (recheck : GroupRecheck) (cs : List Change) (max_age now : ℕ)
    (id : Identity)
    → ((key : Bytes) (at : ℕ) → lookup key stored ≡ some at → 0 < at)
    → AllSound cs
    → let w = apply_each (start stored recheck) cs in
      (session_ended max_age (new_session_cutoffs w.stored) id now
        ≡ session_ended max_age w.cutoffs id now)
      × (groups_stale (new_session_cutoffs w.stored) id ≡ groups_stale w.cutoffs id)
restart_decides_alike stored recheck cs max_age now id h sound =
    restarted (apply_each (start stored recheck) cs) max_age now id
      (apply_each-Mirrors (start stored recheck) cs (start-Mirrors stored recheck h) sound)
