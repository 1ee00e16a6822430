-- ===== src/RefIdentity/Completion.antt =====
-- Evidence that is completed keeps the identity that it decides.
use agent_desktop.Prelude.{
  Bool-cases, Option, Option-cases, ap, arith, if◌then◌else◌, inl, inr, none, not, refl, some, true,
  ◌∙◌, ◌≡◌, ◌⊎◌,
}
use agent_desktop.Text.{Text}
use agent_desktop.Roles.{is_mutable_value_role}
use agent_desktop.RefEntry.{ElementIdentifier, RefEntry}
use agent_desktop.Identifiers.{IdentifierEvidence}
use agent_desktop.Locator.{LocatorField, absent, known, unread}
use agent_desktop.Locator.Monotone.{FieldCompletes}
use agent_desktop.RefIdentity.{
  IdentityMatch, empty_identity_match, has_identifier, identity_match, match_expected,
  match_primary_identity, meaningful_field, meaningful_text, name_against, native_match,
  other_identity, retained_match, same_identity, stable_name, stable_name_field, stable_text_match,
  stable_value, stable_value_field, unknown_identity,
}
use agent_desktop.Geometry.{F64}

-- An identity that was not decided may become anything; one that was decided stays.
abbrev pub Settles : IdentityMatch → IdentityMatch → Type 0
Settles a b = (a ≡ unknown_identity) ⊎ (a ≡ b)

-- A later reading of the identifiers: a complete one stays, a retained object stays, and no
-- identifier is lost.
pub record LaterIdentifiers (e f : IdentifierEvidence) : Type 0 where
  pub finished : e.complete ≡ true → e ≡ f
  pub retained : (e.retained_object ≡ none) ⊎ (e.retained_object ≡ f.retained_object)
  pub extended :
      (i : ElementIdentifier)
      → has_identifier i e.identifiers ≡ true
      → has_identifier i f.identifiers ≡ true

retained_match-Settles :
    (expected : Text) (a b : Option Text)
    → (a ≡ none) ⊎ (a ≡ b)
    → Settles (retained_match expected a) (retained_match expected b)
unfolding retained_match
retained_match-Settles expected a b (inl e) = inl (ap (retained_match expected) e)
retained_match-Settles expected a b (inr e) = inr (ap (retained_match expected) e)

native_value-Settles :
    (i : ElementIdentifier) (e f : IdentifierEvidence)
    → LaterIdentifiers e f
    → Settles
        (if has_identifier i e.identifiers
          then same_identity
          else if not e.complete
          then unknown_identity
          else other_identity)
        (if has_identifier i f.identifiers
          then same_identity
          else if not f.complete
          then unknown_identity
          else other_identity)
native_value-Settles i e f h =
    let x = h.extended i in
    elim (Bool-cases e.complete) [
      | inl y ↦ inr (
          ap
            (λ g.
              if has_identifier i g.identifiers
              then same_identity
              else if not g.complete
              then unknown_identity
              else other_identity)
            (h.finished y))
      | inr n ↦ ground arith
    ]

native_match-Settles :
    (expected : ElementIdentifier) (e f : IdentifierEvidence)
    → LaterIdentifiers e f
    → Settles (native_match expected e) (native_match expected f)
unfolding native_match
native_match-Settles expected e f h = elim (Option-cases (meaningful_text (some expected.value))) [
  | inl blank ↦ inl (rw (blank, native_match) refl)
  | inr (value, there) ↦
      rw (there, native_match)
        (native_value-Settles (record { kind = expected.kind; value = value }) e f h)
]

meaningful_field-FieldCompletes :
    (f g : LocatorField Text)
    → FieldCompletes f g
    → FieldCompletes (meaningful_field f) (meaningful_field g)
unfolding meaningful_field
meaningful_field-FieldCompletes f g (inl e) = inl (ap meaningful_field e)
meaningful_field-FieldCompletes f g (inr e) = inr (ap meaningful_field e)

stable_value_field-FieldCompletes :
    (role : Text) (f g : LocatorField Text)
    → FieldCompletes f g
    → FieldCompletes (stable_value_field role f) (stable_value_field role g)
unfolding stable_value_field
stable_value_field-FieldCompletes role f g h =
    let rest = meaningful_field-FieldCompletes f g h in
    elim (Bool-cases (is_mutable_value_role role)) [
      | inl yes_ ↦ rw yes_ (inr refl)
      | inr no_ ↦ rw no_ rest
    ]

primary-Settles :
    (expected : Text) (a a' b b' : LocatorField Text)
    → FieldCompletes a a'
    → FieldCompletes b b'
    → Settles (match_primary_identity expected a b) (match_primary_identity expected a' b')
unfolding match_primary_identity
primary-Settles expected a a' b b' (inl e) k = inl (ap (λ x. match_primary_identity expected x b) e)
primary-Settles expected (known t) a' b b' (inr e) k =
    inr (ap (λ x. match_primary_identity expected x b') e)
primary-Settles expected unread a' b b' (inr e) k = inl refl
primary-Settles expected absent a' b b' (inr e) (inl f) =
    inl (ap (λ x. match_primary_identity expected absent x) f)
primary-Settles expected absent a' b b' (inr e) (inr f) = inr (
    ap (λ x. match_primary_identity expected absent x) f
    ∙ ap (λ x. match_primary_identity expected x b') e)

unread_value : (n d : LocatorField Text) → empty_identity_match n unread d ≡ unknown_identity
unfolding empty_identity_match
unread_value (known t) d = refl
unread_value absent d = refl
unread_value unread d = refl

unread_description : (n v : LocatorField Text) → empty_identity_match n v unread ≡ unknown_identity
unfolding empty_identity_match
unread_description n v = ground arith

empty-Settles :
    (n n' v v' d d' : LocatorField Text)
    → FieldCompletes n n'
    → FieldCompletes v v'
    → FieldCompletes d d'
    → Settles (empty_identity_match n v d) (empty_identity_match n' v' d')
unfolding empty_identity_match
empty-Settles n n' v v' d d' (inl e) k l = inl (ap (λ x. empty_identity_match x v d) e)
empty-Settles n n' v v' d d' (inr e) (inl f) l =
    inl (ap (λ x. empty_identity_match n x d) f ∙ unread_value n d)
empty-Settles n n' v v' d d' (inr e) (inr f) (inl g) =
    inl (ap (λ x. empty_identity_match n v x) g ∙ unread_description n v)
empty-Settles n n' v v' d d' (inr e) (inr f) (inr g) = inr (
    ap (λ x. empty_identity_match x v d) e
    ∙ ap (λ x. empty_identity_match n' x d) f
    ∙ ap (λ x. empty_identity_match n' v' x) g)

name_against-FieldCompletes :
    (parse_f64 : Text → Option F64) (n n' v v' : LocatorField Text)
    → FieldCompletes n n'
    → FieldCompletes v v'
    → FieldCompletes (name_against parse_f64 n v) (name_against parse_f64 n' v')
unfolding name_against
name_against-FieldCompletes p n n' v v' (inl e) k = inl (ap (λ x. name_against p x v) e)
name_against-FieldCompletes p (known t) n' v v' (inr e) (inl f) =
    inl (ap (λ x. name_against p (known t) x) f)
name_against-FieldCompletes p absent n' v v' (inr e) (inl f) = inr (ap (λ x. name_against p x v') e)
name_against-FieldCompletes p unread n' v v' (inr e) (inl f) = inl refl
name_against-FieldCompletes p n n' v v' (inr e) (inr f) =
    inr (ap (λ x. name_against p x v) e ∙ ap (λ x. name_against p n' x) f)

module _ (parse_f64 : Text → Option F64) where
  stable_name_field-FieldCompletes :
      (role : Text) (n n' v v' : LocatorField Text)
      → FieldCompletes n n'
      → FieldCompletes v v'
      → FieldCompletes
          (stable_name_field parse_f64 role n v)
          (stable_name_field parse_f64 role n' v')
  unfolding stable_name_field
  stable_name_field-FieldCompletes role n n' v v' h k =
      let name = meaningful_field-FieldCompletes n n' h in
      let value = meaningful_field-FieldCompletes v v' k in
      let both_ =
        name_against-FieldCompletes parse_f64 (meaningful_field n) (meaningful_field n')
          (meaningful_field v) (meaningful_field v') name value in
      elim (Bool-cases (is_mutable_value_role role)) [
        | inl yes_ ↦ rw yes_ both_
        | inr no_ ↦ rw no_ name
      ]

  match_expected-Settles :
      (role : Text) (x y z : Option Text) (n n' v v' d d' : LocatorField Text)
      → FieldCompletes n n'
      → FieldCompletes v v'
      → FieldCompletes d d'
      → Settles
          (match_expected parse_f64 role x y z n v d)
          (match_expected parse_f64 role x y z n' v' d')
  unfolding match_expected
  match_expected-Settles role (some t) y z n n' v v' d d' h k l = primary-Settles t n n' v v' h k
  match_expected-Settles role none (some t) z n n' v v' d d' h k l = primary-Settles t v v' n n' k h
  match_expected-Settles role none none (some t) n n' v v' d d' h k l =
      primary-Settles t d d' n n' l h
  match_expected-Settles role none none none n n' v v' d d' h k l =
      let rest = empty-Settles n n' v v' d d' h k l in
      elim (Bool-cases (is_mutable_value_role role)) [
        | inl yes_ ↦ rw yes_ (inl refl)
        | inr no_ ↦ rw no_ rest
      ]

  stable_text-Settles :
      (entry : RefEntry) (n n' v v' d d' : LocatorField Text)
      → FieldCompletes n n'
      → FieldCompletes v v'
      → FieldCompletes d d'
      → Settles
          (stable_text_match parse_f64 entry n v d)
          (stable_text_match parse_f64 entry n' v' d')
  unfolding stable_text_match
  stable_text-Settles entry n n' v v' d d' h k l =
      match_expected-Settles entry.identity.role
        (stable_name parse_f64 entry.identity.role entry.identity.name entry.identity.value)
        (stable_value entry.identity.role entry.identity.value)
        (meaningful_text entry.identity.description)
        (stable_name_field parse_f64 entry.identity.role n v)
        (stable_name_field parse_f64 entry.identity.role n' v')
        (stable_value_field entry.identity.role v) (stable_value_field entry.identity.role v')
        (meaningful_field d) (meaningful_field d')
        (stable_name_field-FieldCompletes entry.identity.role n n' v v' h k)
        (stable_value_field-FieldCompletes entry.identity.role v v' k)
        (meaningful_field-FieldCompletes d d' l)

  -- Evidence that is completed keeps the identity: where fields that were not read become known or
  -- absent, and identifiers are added to an incomplete list, a match and a mismatch both stay.
  pub identity_match-Settles :
      (entry : RefEntry) (n n' v v' d d' : LocatorField Text) (e f : IdentifierEvidence)
      → FieldCompletes n n'
      → FieldCompletes v v'
      → FieldCompletes d d'
      → LaterIdentifiers e f
      → Settles (identity_match parse_f64 entry n v d e) (identity_match parse_f64 entry n' v' d' f)
  unfolding identity_match
  identity_match-Settles entry n n' v v' d d' e f h k l i =
      let text = stable_text-Settles entry n n' v v' d d' h k l in
      elim (Option-cases entry.identity.retained_object) [
        | inr (expected, there) ↦
            rw there
              (retained_match-Settles expected e.retained_object f.retained_object i.retained)
        | inl gone ↦ rw gone (elim (Option-cases entry.identity.native_id) [
          | inr (expected, there) ↦ rw there (native_match-Settles expected e f i)
          | inl none_ ↦ rw none_ text
        ])
      ]
