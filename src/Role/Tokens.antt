-- ===== src/Role/Tokens.antt =====
-- Tokens and roles correspond: `from_token`, `as_str` and `is_canonical` of crates/core/src/role.rs.
use agent_desktop.Text.{Text, codes, text_eq, to_ascii_lowercase, trim}
use agent_desktop.Role.{
  Role, alert, as_str, from_token, is_canonical, is_known, match_token, tokens, unknown,
}
use agent_desktop.Text.Laws.{lower_trim_idem, text_eq→eq}
use agent_desktop.Prelude.{
  Bool, List, [], all, ap, arith, inl, inr, refl, true, ||-true, ◌↔◌, ◌∷◌, ◌≡◌, ◌≢◌, ◌||◌,
}

-- Every role is read back from its own token.
pub from_token-as_str : (r : Role) → from_token (as_str r) ≡ r
unfolding from_token as_str
from_token-as_str alert = refl
from_token-as_str _ = refl

-- An arm of the match maps the token of a role to that role.
is_arm : Text × Role → Bool
is_arm (s, r) = text_eq s (as_str r)

tokens-is_arm : all is_arm tokens ≡ true
unfolding is_arm as_str text_eq
tokens-is_arm = refl

match_token_sound :
    (arms : List (Text × Role)) (t : Text)
    → all is_arm arms ≡ true
    → match_token arms t ≢ unknown
    → as_str (match_token arms t) ≡ t
unfolding match_token is_arm
match_token_sound [] t h n = absurd (n refl)
match_token_sound ((s, r) ∷ arms) t h n =
    ground (arith, text_eq→eq t s, text_eq→eq s (as_str r), match_token_sound arms t)

-- A role other than `unknown` is read only from its token, up to case and outer whitespace.
pub from_token_sound :
    (v : Text) → from_token v ≢ unknown → as_str (from_token v) ≡ to_ascii_lowercase (trim v)
unfolding from_token
from_token_sound v h = match_token_sound tokens (to_ascii_lowercase (trim v)) tokens-is_arm h

-- `from_token` sees a text only through its trimmed lower-case form.
pub from_token_normal : (v : Text) → from_token (to_ascii_lowercase (trim v)) ≡ from_token v
unfolding from_token
from_token_normal v = rw (lower_trim_idem v)

pub is_known→ne : (r : Role) → is_known r ≡ true → r ≢ unknown
unfolding is_known
is_known→ne r h e = cc (ap is_known e)

pub ne→is_known : (r : Role) → r ≢ unknown → is_known r ≡ true
unfolding is_known
ne→is_known unknown h = absurd (h refl)
ne→is_known _ h = refl

is_canonical_sound :
    (v : Text) → is_canonical v ≡ true → as_str (from_token v) ≡ to_ascii_lowercase (trim v)
unfolding is_canonical
is_canonical_sound v h =
    elim (||-true (text_eq (to_ascii_lowercase (trim v)) (codes "unknown")) _ h) [
      | inl e ↦ unknown_text (to_ascii_lowercase (trim v)) (from_token_normal v) (text_eq→eq _ _ e)
      | inr k ↦ from_token_sound v (rw (← from_token_normal v) (is_known→ne _ k))
    ]
  where
    unknown_text :
        (t : Text) → from_token t ≡ from_token v → t ≡ codes "unknown" → as_str (from_token v) ≡ t
    unknown_text t e q = rw (← e, q) (unfold from_token as_str in refl)

token_canonical :
    (r : Role) → (text_eq (as_str r) (codes "unknown") || is_known (from_token (as_str r))) ≡ true
unfolding as_str text_eq from_token is_known
token_canonical alert = refl
token_canonical _ = refl

is_canonical_complete :
    (v : Text) → as_str (from_token v) ≡ to_ascii_lowercase (trim v) → is_canonical v ≡ true
unfolding is_canonical
is_canonical_complete v e = rw (← e) (token_canonical (from_token v))

-- A text is canonical exactly when its trimmed lower-case form is the token of the role that
-- `from_token` reads from it.
pub is_canonical_iff :
    (v : Text) → (is_canonical v ≡ true) ↔ (as_str (from_token v) ≡ to_ascii_lowercase (trim v))
is_canonical_iff v = (is_canonical_sound v, is_canonical_complete v)
