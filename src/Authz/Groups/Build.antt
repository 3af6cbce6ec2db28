-- ===== src/Authz/Groups/Build.antt =====
-- What is read back of the groups that a session carries.
use vps_scaffold_auth.Common.{
  ℕ, ◌≡◌, refl, ap, ◌∙◌, inl, inr, true, false, not, ◌&&◌, ◌||◌, List, [], ◌∷◌, ◌++◌, arith,
  nat_beq, Bool-cases, ◌==◌, Bytes, bytes_beq_iff, nat_eq, bytes_eq, pair_eq, is_nil, any, all,
  contains, all-append, contains-append,
}
use vps_scaffold_auth.Common.Text.{is_space, trim_space, join}
use vps_scaffold_auth.Common.Text.Trimming.{trim_space_of_solid}
use vps_scaffold_auth.Common.Text.Splitting.{split-join, free_of}
use vps_scaffold_auth.Authz.Groups.{
  build_groups, add_groups, has_group, is_reserved_group, comma, add_group, group_char,
  valid_group_name,
}

any_full : (out : List Bytes) (g : Bytes) → contains out g ≡ true → is_nil out ≡ false
any_full [] g h = ground arith
any_full (x ∷ out) g h = refl

nil_append : (out : List Bytes) (g : Bytes) → is_nil (out ++ g ∷ []) ≡ false
nil_append [] g = refl
nil_append (x ∷ out) g = refl

char_solid : (c : ℕ) → group_char c ≡ true → (is_space c ≡ false) × (nat_beq c comma ≡ false)
unfolding group_char is_space
char_solid c h = ground arith

chars_solid :
    (s : Bytes)
    → all group_char s ≡ true
    → (all (λ c. elim (is_space c) [ true ↦ false | false ↦ true ]) s ≡ true)
      × (free_of comma s ≡ true)
chars_solid [] h = (refl, refl)
chars_solid (c ∷ s) h = ground (arith, char_solid c, chars_solid s)

trim_of_valid : (g : Bytes) → valid_group_name g ≡ true → trim_space g ≡ g
unfolding valid_group_name
trim_of_valid g h = trim_space_of_solid g (chars_solid g (ground arith)).0

valid_ne_nil : (g : Bytes) → valid_group_name g ≡ true → is_nil g ≡ false
unfolding valid_group_name
valid_ne_nil g h = ground arith

free_of_valid : (g : Bytes) → valid_group_name g ≡ true → free_of comma g ≡ true
unfolding valid_group_name
free_of_valid g h = (chars_solid g (ground arith)).1

-- What `add_group` does with a valid name.
record Adds (out next : List Bytes) (g : Bytes) : Type 0 where
  valid : all valid_group_name next ≡ true
  held : (t : Bytes) → contains next t ≡ (contains out t || g == t)
  full : is_nil next ≡ false

add_group-Adds :
    (out : List Bytes) (g : Bytes)
    → all valid_group_name out ≡ true
    → valid_group_name g ≡ true
    → Adds out (add_group out g) g
unfolding add_group
add_group-Adds out g h v = record {
  valid = ground (arith, trim_of_valid g, all-append valid_group_name out (g ∷ []));
  held = λ t.
      ground
        (arith, trim_of_valid g, valid_ne_nil g, contains-append out (g ∷ []) t, bytes_beq_iff g t);
  full = ground (arith, trim_of_valid g, valid_ne_nil g, any_full out g, nil_append out g);
}

record Built (out next gs : List Bytes) : Type 0 where
  valid : all valid_group_name next ≡ true
  held :
      (t : Bytes)
      → contains next t ≡ (contains out t || (contains gs t && not (is_reserved_group t)))
  full : is_nil out ≡ false → is_nil next ≡ false

add_groups-Built :
    (out gs : List Bytes)
    → all valid_group_name out ≡ true
    → all valid_group_name gs ≡ true
    → Built out (add_groups out gs) gs
unfolding add_groups
add_groups-Built out [] h v = record { valid = h; held = λ t. ground arith; full = λ f. f }
add_groups-Built out (g ∷ gs) h v = elim (Bool-cases (is_reserved_group g)) [
  | inl q ↦
      let ih = add_groups-Built out gs h (ground arith) in
      rw (q, add_groups)
        (record {
          valid = ih.valid;
          held = λ t. ground (arith, ih.held t, bytes_beq_iff g t);
          full = ih.full;
        })
  | inr q ↦
      let one = add_group-Adds out g h (ground arith) in
      let ih = add_groups-Built (add_group out g) gs one.valid (ground arith) in
      rw (q, add_groups)
        (record {
          valid = ih.valid;
          held = λ t. ground (arith, ih.held t, one.held t, bytes_beq_iff g t);
          full = λ _. ih.full one.full;
        })
]

any-trimmed :
    (t : Bytes) (gs : List Bytes)
    → all valid_group_name gs ≡ true
    → any (λ g. trim_space g == t) gs ≡ contains gs t
any-trimmed t [] h = refl
any-trimmed t (g ∷ gs) h = ground (arith, trim_of_valid g, any-trimmed t gs)

all_free : (gs : List Bytes) → all valid_group_name gs ≡ true → all (free_of comma) gs ≡ true
all_free [] h = refl
all_free (g ∷ gs) h = ground (arith, free_of_valid g, all_free gs)

has_group-join :
    (t : Bytes) (gs : List Bytes)
    → is_nil gs ≡ false
    → all valid_group_name gs ≡ true
    → has_group (join comma gs) t ≡ contains gs t
unfolding has_group
has_group-join t [] f h = cc
has_group-join t (g ∷ gs) f h =
    ap (any (λ x. trim_space x == t)) (split-join comma g gs (all_free (g ∷ gs) h))
    ∙ any-trimmed t (g ∷ gs) h

-- If the role and the stored names are valid group names, a session built from them holds exactly
-- its role and those stored names that are not reserved.
pub has_group-build_groups :
    (role : Bytes) (gs : List Bytes) (t : Bytes)
    → valid_group_name role ≡ true
    → all valid_group_name gs ≡ true
    → has_group (build_groups role gs) t
      ≡ (role == t || (contains gs t && not (is_reserved_group t)))
unfolding build_groups
has_group-build_groups role gs t r v =
    let first = add_group-Adds [] role refl r in
    let rest = add_groups-Built (add_group [] role) gs first.valid v in
    has_group-join t (add_groups (add_group [] role) gs) (rest.full first.full) rest.valid
    ∙ ground (arith, rest.held t, first.held t)
