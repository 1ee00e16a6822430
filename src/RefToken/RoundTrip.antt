-- ===== src/RefToken/RoundTrip.antt =====
-- Qualifying a ref by its snapshot and resolving it are inverse to one another.
use agent_desktop.Prelude.{
  Bool, [], all, arith, false, none, not, refl, some, true, ℕ, ◌++◌, ◌==◌, ◌∷◌, ◌≡◌, Option,
  Option-cases, guard, inl, inr, is_some_and, ok, ◌>>◌, err, ◌≢◌, >>=-eq-ok, Bool-cases, Result,
  ◌∙◌, ◌⊎◌, ap, guard-eq-ok, ok-injective, ok_or, ok_or-eq-ok, subst,
}
use agent_desktop.Text.{Text, codes, is_ascii_digit, rsplit_once, strip_prefix, text_eq}
use agent_desktop.Text.Laws.{
  strip_prefix-append, strip_prefix_join, text_eq_refl, text_ne, rsplit_once_join, text_eq→eq,
}
use agent_desktop.Error.{AppError}
use agent_desktop.SnapshotId.{is_snapshot_char, is_snapshot_id, validate_snapshot_id}
use agent_desktop.RefToken.{
  is_element_number, is_local_ref, resolve_qualified, snapshot_mismatch, qualify_ref_id,
  resolve_ref_target, resolve_local, invalid_ref,
}

-- No character of a snapshot id, and no digit, is a colon.
abbrev no_colon : ℕ → Bool
no_colon c = not (c == b':')

colon_free : (s : Text) → all is_snapshot_char s ≡ true → all no_colon s ≡ true
unfolding is_snapshot_char
colon_free [] h = refl
colon_free (c ∷ s) h = ground (arith, colon_free s)

digits_colon_free : (s : Text) → all is_ascii_digit s ≡ true → all no_colon s ≡ true
unfolding is_ascii_digit
digits_colon_free [] h = refl
digits_colon_free (c ∷ s) h = ground (arith, digits_colon_free s)

-- The last `:e` of a text is found behind everything that holds no colon.
rsplit_none : (s : Text) → all no_colon s ≡ true → rsplit_once (codes ":e") s ≡ none
unfolding rsplit_once
rsplit_none [] h = refl
rsplit_none (c ∷ s) h = ground (arith, rsplit_none s)

rsplit_found :
    (s ds : Text)
    → all no_colon ds ≡ true
    → rsplit_once (codes ":e") (s ++ (codes ":e" ++ ds)) ≡ some (s, ds)
unfolding rsplit_once
rsplit_found [] ds h = rw (rsplit_none ds h) refl
rsplit_found (c ∷ s) ds h = rw (rsplit_found s ds h) refl

-- A local ref is `@e` and an element number.
local_shape :
    (l : Text)
    → is_local_ref l ≡ true
    → (ds : Text) × (l ≡ codes "@e" ++ ds) × (is_element_number ds ≡ true)
unfolding is_local_ref
local_shape l h = elim (Option-cases (strip_prefix (codes "@e") l)) [
  | inl n ↦ ground arith
  | inr (ds, e) ↦ (ds, strip_prefix_join (codes "@e") l ds e, ground arith)
]

colon_not_digits : (s t : Text) → all is_ascii_digit (s ++ (b':' ∷ t)) ≡ false
unfolding is_ascii_digit
colon_not_digits [] t = refl
colon_not_digits (c ∷ s) t = ground (arith, colon_not_digits s t)

qualified_not_local : (s t : Text) → is_local_ref (b'@' ∷ (s ++ (b':' ∷ t))) ≡ false
unfolding is_local_ref is_element_number
qualified_not_local [] t = refl
qualified_not_local (c ∷ s) t = ground (arith, colon_not_digits s t)

element_digits : (ds : Text) → is_element_number ds ≡ true → all is_ascii_digit ds ≡ true
unfolding is_element_number
element_digits ds h = ground arith

valid_chars : (s : Text) → validate_snapshot_id s ≡ ok tt → is_snapshot_id s ≡ true
unfolding validate_snapshot_id
valid_chars s h = ground arith

-- A tail that is an element number makes a local ref.
number_local : (ds : Text) → is_element_number ds ≡ true → is_local_ref (codes "@e" ++ ds) ≡ true
unfolding is_local_ref
number_local ds n = n

abbrev checked : Text → Text → Option Text → Result AppError (Text × Text)
checked s l explicit =
    guard (not (is_some_and explicit (λ e. not (text_eq e s)))) snapshot_mismatch >> ok (s, l)

-- What the branch of qualified refs does with a snapshot id and an element number.
resolve_qualified_lem :
    (s ds : Text) (explicit : Option Text)
    → validate_snapshot_id s ≡ ok tt
    → is_element_number ds ≡ true
    → resolve_qualified (b'@' ∷ (s ++ (codes ":e" ++ ds))) explicit
      ≡ checked s (codes "@e" ++ ds) explicit
unfolding resolve_qualified
resolve_qualified_lem s ds explicit v n =
    rw (strip_prefix-append (codes "@") (s ++ (codes ":e" ++ ds))) (
      rw (rsplit_found s ds (digits_colon_free ds (element_digits ds n)), v)
        (rw (number_local ds n) refl))

resolve-qualify_checked :
    (s l : Text) (explicit : Option Text)
    → validate_snapshot_id s ≡ ok tt
    → is_local_ref l ≡ true
    → resolve_ref_target (qualify_ref_id s l) explicit ≡ checked s l explicit
unfolding resolve_ref_target qualify_ref_id
resolve-qualify_checked s l explicit v h =
    let (ds, e, n) = local_shape l h in
    rw e (rw (qualified_not_local s (codes "e" ++ ds)) (resolve_qualified_lem s ds explicit v n))

-- A local ref qualified by a valid snapshot id resolves to the two of them, without an explicit
-- snapshot and with the same one; with a different one it is refused.
pub resolve-qualify :
    (s l other : Text)
    → validate_snapshot_id s ≡ ok tt
    → is_local_ref l ≡ true
    → other ≢ s
    → (resolve_ref_target (qualify_ref_id s l) none ≡ ok (s, l))
      × (resolve_ref_target (qualify_ref_id s l) (some s) ≡ ok (s, l))
      × (resolve_ref_target (qualify_ref_id s l) (some other) ≡ err snapshot_mismatch)
resolve-qualify s l other v h ne = (
  resolve-qualify_checked s l none v h,
  resolve-qualify_checked s l (some s) v h ∙ rw (text_eq_refl s) refl,
  resolve-qualify_checked s l (some other) v h ∙ rw (text_ne other s ne) refl,
)

-- The ways in which a resolution can have come about.
abbrev pub Resolves : Text → Option Text → Text → Text → Type 0
Resolves r explicit s l =
    ((r ≡ l) × (explicit ≡ some s))
    ⊎ ((r ≡ qualify_ref_id s l) × ((explicit ≡ none) ⊎ (explicit ≡ some s)))

resolve_local_sound :
    (r s l : Text) (explicit : Option Text)
    → resolve_local r explicit ≡ ok (s, l)
    → (validate_snapshot_id s ≡ ok tt) × (r ≡ l) × (explicit ≡ some s)
unfolding resolve_local
resolve_local_sound r s l none e = cc
resolve_local_sound r s l (some x) e =
    let (u, v, f) = >>=-eq-ok (validate_snapshot_id x) _ e in ground arith

no_other :
    (explicit : Option Text) (s : Text)
    → not (is_some_and explicit (λ x. not (text_eq x s))) ≡ true
    → (explicit ≡ none) ⊎ (explicit ≡ some s)
no_other none s h = inl refl
no_other (some x) s h = inr (ap some (text_eq→eq x s (ground arith)))

qualified_text :
    (s ds : Text) → codes "@" ++ (s ++ (codes ":e" ++ ds)) ≡ qualify_ref_id s (codes "@e" ++ ds)
unfolding qualify_ref_id
qualified_text s ds = refl

-- What the branch of qualified refs proves of its answer.
abbrev Sound : Text → Option Text → Text × Text → Type 0
Sound r explicit p =
    (validate_snapshot_id p.0 ≡ ok tt)
    × (is_local_ref p.1 ≡ true)
    × (r ≡ qualify_ref_id p.0 p.1)
    × ((explicit ≡ none) ⊎ (explicit ≡ some p.0))

resolve_qualified_sound :
    (r s l : Text) (explicit : Option Text)
    → resolve_qualified r explicit ≡ ok (s, l)
    → (validate_snapshot_id s ≡ ok tt)
      × (is_local_ref l ≡ true)
      × (r ≡ qualify_ref_id s l)
      × ((explicit ≡ none) ⊎ (explicit ≡ some s))
unfolding resolve_qualified
resolve_qualified_sound r s l explicit e =
    let (rest, stripped, e₁) = >>=-eq-ok (ok_or (strip_prefix (codes "@") r) invalid_ref) _ e in
    let (parts, split, e₂) = >>=-eq-ok (ok_or (rsplit_once (codes ":e") rest) invalid_ref) _ e₁ in
    let (done, valid, e₃) = >>=-eq-ok (validate_snapshot_id parts.0) _ e₂ in
    let (done₁, shaped, e₄) =
      >>=-eq-ok (guard (is_local_ref (codes "@e" ++ parts.1)) invalid_ref) _ e₃ in
    let (done₂, agrees, e₅) =
      >>=-eq-ok
        (guard (not (is_some_and explicit (λ x. not (text_eq x parts.0)))) snapshot_mismatch) _
        e₄ in
    let same : ◌≡◌ {A = Text × Text} (parts.0, codes "@e" ++ parts.1) (s, l) = ok-injective e₅ in
    let whole : r ≡ codes "@" ++ (parts.0 ++ (codes ":e" ++ parts.1)) =
      strip_prefix_join (codes "@") r rest (ok_or-eq-ok _ _ stripped)
      ∙ ap (λ t. codes "@" ++ t)
          (rsplit_once_join (codes ":e") rest parts.0 parts.1 (ok_or-eq-ok _ _ split)) in
    subst (Sound r explicit) same (
      valid,
      guard-eq-ok _ _ shaped,
      whole ∙ qualified_text parts.0 parts.1,
      no_other explicit parts.0 (guard-eq-ok _ _ agrees),
    )

-- Whatever resolves comes with a valid snapshot id and a local ref, and was either that local ref
-- under that explicit snapshot, or the two of them qualified, with no other explicit snapshot.
pub resolve_ref_target_sound :
    (r s l : Text) (explicit : Option Text)
    → resolve_ref_target r explicit ≡ ok (s, l)
    → (validate_snapshot_id s ≡ ok tt) × (is_local_ref l ≡ true) × Resolves r explicit s l
unfolding resolve_ref_target
resolve_ref_target_sound r s l explicit e = elim (Bool-cases (is_local_ref r)) [
  | inl y ↦
      let (v, p, x) = resolve_local_sound r s l explicit (rw y at e) in (v, rw (← p) y, inl (p, x))
  | inr n ↦
      let (v, h, q, x) = resolve_qualified_sound r s l explicit (rw n at e) in (v, h, inr (q, x))
]
