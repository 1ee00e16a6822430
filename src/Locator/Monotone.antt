-- ===== src/Locator/Monotone.antt =====
-- A verdict on what was read holds of what is there.
use agent_desktop.Identifiers.{IdentifierEvidence, preferred_value, value_at, values}
use agent_desktop.Prelude.{
  Bool, List, Option, [], any, ap, arith, inl, inr, none, refl, some, suc, true, zero, ℕ, ◌∷◌, ◌≡◌,
  ◌⊎◌, Bool-cases, if◌then◌else◌, is_empty, subst, sym,
}
use agent_desktop.Text.{Text, text_eq}
use agent_desktop.Locator.{
  LocatorEvidence, LocatorField, MatchVerdict, both, either, field_verdict, option_text_is,
  role_verdict, unknown_match, unread, LocatorIdentifierStats, LocatorQuery, identifier_verdict,
  is_matching, is_no_match, no_match, self_verdict, self_verdict_of, states_verdict, text_matched,
  text_verdict, self_text_verdict,
}

-- The second verdict decides at least what the first does.
abbrev pub Refines : MatchVerdict → MatchVerdict → Type 0
Refines v w = (v ≡ unknown_match) ⊎ (v ≡ w)

-- What a later reading may show of a field: anything where it was not read, else the same.
abbrev pub FieldCompletes : {A : Type 0} → LocatorField A → LocatorField A → Type 0
FieldCompletes f g = (f ≡ unread) ⊎ (f ≡ g)

pub record IdentifiersComplete (e f : IdentifierEvidence) : Type 0 where
  pub finished : e.complete ≡ true → e ≡ f
  pub extended :
      (t : Text)
      → any (λ a. text_eq a t) (values e) ≡ true
      → any (λ a. text_eq a t) (values f) ≡ true

pub record Completes (e f : LocatorEvidence) : Type 0 where
  pub role : FieldCompletes e.role f.role
  pub name : FieldCompletes e.name f.name
  pub description : FieldCompletes e.description f.description
  pub value : FieldCompletes e.value f.value
  pub identifiers : IdentifiersComplete e.identifiers f.identifiers
  pub states : FieldCompletes e.states f.states

both-Refines :
    (v v' w w' : MatchVerdict) → Refines v v' → Refines w w' → Refines (both v w) (both v' w')
unfolding both
both-Refines v v' w w' h k = ground arith

either-Refines :
    (v v' w w' : MatchVerdict) → Refines v v' → Refines w w' → Refines (either v w) (either v' w')
unfolding either
either-Refines v v' w w' h k = ground arith

field_verdict-Refines :
    {A : Type 0} (test : A → Bool) (f g : LocatorField A)
    → FieldCompletes f g
    → Refines (field_verdict test f) (field_verdict test g)
unfolding field_verdict
field_verdict-Refines test f g (inl u) = inl (rw u refl)
field_verdict-Refines test f g (inr e) = inr (ap (field_verdict test) e)

role_verdict-Refines :
    (expected : Option Text) (f g : LocatorField Text)
    → FieldCompletes f g
    → Refines (role_verdict expected f) (role_verdict expected g)
unfolding role_verdict
role_verdict-Refines none f g h = inr refl
role_verdict-Refines (some t) f g h = field_verdict-Refines (λ a. text_eq a t) f g h

preferred_is_among :
    (texts : List Text) (index : Option ℕ) (t : Text)
    → option_text_is (value_at texts index) t ≡ true
    → any (λ a. text_eq a t) texts ≡ true
preferred_is_among texts none t h = cc
preferred_is_among [] (some i) t h = ground arith
preferred_is_among (v ∷ texts) (some zero) t h = ground arith
preferred_is_among (v ∷ texts) (some (suc i)) t h =
    let later = preferred_is_among texts (some i) t h in ground arith

identifier_verdict-Refines :
    (expected : Option Text) (e f : LocatorEvidence)
    → IdentifiersComplete e.identifiers f.identifiers
    → Refines (identifier_verdict expected e).0 (identifier_verdict expected f).0
unfolding identifier_verdict preferred_value
identifier_verdict-Refines none e f h = inr refl
identifier_verdict-Refines (some t) e f h =
    let p = preferred_is_among (values e.identifiers) e.identifiers.preferred t in
    let q = preferred_is_among (values f.identifiers) f.identifiers.preferred t in
    let x = h.extended t in
    elim (Bool-cases e.identifiers.complete) [
      | inl y ↦
          inr (
            ap (λ i. (identifier_verdict (some t) (record f { identifiers = i })).0) (h.finished y))
      | inr n ↦ ground arith
    ]

states_verdict-Refines :
    (query : LocatorQuery) (e f : LocatorEvidence)
    → FieldCompletes e.states f.states
    → Refines (states_verdict query e) (states_verdict query f)
unfolding states_verdict
states_verdict-Refines query e f (inl u) = elim (Bool-cases (is_empty query.states)) [
  | inl y ↦ rw y (inr refl)
  | inr n ↦ rw (n, u) (inl refl)
]
states_verdict-Refines query e f (inr q) =
    inr (ap (λ s. states_verdict query (record f { states = s })) q)

module _ (to_lowercase : ℕ → Text) where
  text_verdict-Refines :
      (expected : Option Text) (exact : Bool) (f g : LocatorField Text)
      → FieldCompletes f g
      → Refines
          (text_verdict to_lowercase expected f exact)
          (text_verdict to_lowercase expected g exact)
  unfolding text_verdict
  text_verdict-Refines none exact f g h = inr refl
  text_verdict-Refines (some t) exact f g h =
      field_verdict-Refines (text_matched to_lowercase exact t) f g h

  -- The early return saves work only.
  early_return :
      (v a b c : MatchVerdict)
      → (if is_no_match v then v else both (both (both v a) b) c) ≡ both (both (both v a) b) c
  unfolding both
  early_return v a b c = ground arith

  -- What a node's own evidence decides stays decided: if more of the node is read, where what was
  -- known is the same, a match is still a match and a mismatch is still a mismatch.
  pub self_verdict-Refines :
      (query : LocatorQuery) (e f : LocatorEvidence) (s t : LocatorIdentifierStats)
      → Completes e f
      → Refines (self_verdict to_lowercase query e s).0 (self_verdict to_lowercase query f t).0
  unfolding self_verdict self_verdict_of
  self_verdict-Refines query e f s t h =
      subst (λ v. Refines v (self_verdict_of to_lowercase query f)) (sym (early_return _ _ _ _))
        (subst (λ v. Refines (all_of e) v) (sym (early_return _ _ _ _))
          (both-Refines _ _ _ _
            (both-Refines _ _ _ _
              (both-Refines _ _ _ _
                (both-Refines _ _ _ _
                  (both-Refines _ _ _ _
                    (role_verdict-Refines query.identity.role e.role f.role h.role)
                    (identifier_verdict-Refines query.identity.native_id e f h.identifiers))
                  (states_verdict-Refines query e f h.states))
                (text_verdict-Refines query.identity.name query.exact e.name f.name h.name))
              (text_verdict-Refines query.identity.description query.exact e.description
                f.description h.description))
            (text_verdict-Refines query.identity.value query.exact e.value f.value h.value)))
    where
      all_of : LocatorEvidence → MatchVerdict
      all_of e =
          both
            (both
              (both
                (both
                  (both (role_verdict query.identity.role e.role)
                    (identifier_verdict query.identity.native_id e).0)
                  (states_verdict query e))
                (text_verdict to_lowercase query.identity.name e.name query.exact))
              (text_verdict to_lowercase query.identity.description e.description query.exact))
            (text_verdict to_lowercase query.identity.value e.value query.exact)

  early_match :
      (a b c : MatchVerdict)
      → (if is_matching (either no_match a)
          then either no_match a
          else if is_matching (either (either no_match a) b)
          then either (either no_match a) b
          else either (either (either no_match a) b) c)
        ≡ either (either (either no_match a) b) c
  unfolding either
  early_match a b c = ground arith

  -- The same for the text of a node: what its name, description and value decide stays decided.
  pub self_text_verdict-Refines :
      (expected : Option Text) (exact : Bool) (e f : LocatorEvidence)
      → Completes e f
      → Refines
          (self_text_verdict to_lowercase expected e exact)
          (self_text_verdict to_lowercase expected f exact)
  unfolding self_text_verdict
  self_text_verdict-Refines none exact e f h = inr refl
  self_text_verdict-Refines (some t) exact e f h =
      subst (λ v. Refines v (self_text_verdict to_lowercase (some t) f exact))
        (sym (early_match _ _ _))
        (subst (λ v. Refines (any_of e) v) (sym (early_match _ _ _))
          (either-Refines _ _ _ _
            (either-Refines _ _ _ _
              (either-Refines no_match no_match _ _ (inr refl)
                (text_verdict-Refines (some t) exact e.name f.name h.name))
              (text_verdict-Refines (some t) exact e.description f.description h.description))
            (text_verdict-Refines (some t) exact e.value f.value h.value)))
    where
      any_of : LocatorEvidence → MatchVerdict
      any_of e =
          either
            (either (either no_match (text_verdict to_lowercase (some t) e.name exact))
              (text_verdict to_lowercase (some t) e.description exact))
            (text_verdict to_lowercase (some t) e.value exact)
