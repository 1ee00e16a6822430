-- ===== src/Roles/Queries.antt =====
-- What role queries normalise to, and how the classes of roles relate.
use mathlib.Core.Option.{some-injective}
use agent_desktop.Text.Laws.{lower_trim_idem, text_eq_refl, text_eq→eq}
use agent_desktop.Text.{Text, codes, text_eq, text_in, to_ascii_lowercase, trim}
use agent_desktop.Prelude.{
  ap, none, refl, ◌≡◌, Bool, List, Option-cases, [], all, arith, inl, inr, not, some, sym, true,
  unwrap_or, ◌&&◌, ◌↔◌, ◌∙◌, ◌∷◌, ◌≢◌, ◌⊎◌, &&-true, Bool-cases, subst,
}
use agent_desktop.Role.{
  Role, alert, as_str, is_interactive, from_token, handle, is_canonical, is_known, scroll_bar,
  unknown,
}
use agent_desktop.Role.Tokens.{from_token-as_str, from_token_sound, is_canonical_iff, is_known→ne}
use agent_desktop.Roles.{
  interactive_roles, normalize_role_query, role_query_alias, aliases, is_valid_role_query,
  match_alias, mutable_value,
}

-- The table of interactive tokens and the role predicate agree on every role.
pub interactive_roles_agree : (r : Role) → text_in interactive_roles (as_str r) ≡ is_interactive r
unfolding text_in as_str is_interactive
interactive_roles_agree alert = refl
interactive_roles_agree _ = refl

alias_of_token : (r : Role) → role_query_alias (as_str r) ≡ none
unfolding role_query_alias as_str
alias_of_token alert = refl
alias_of_token _ = refl

token_normal : (r : Role) → to_ascii_lowercase (trim (as_str r)) ≡ as_str r
unfolding to_ascii_lowercase trim as_str
token_normal alert = refl
token_normal _ = refl

normalize_token : (r : Role) → normalize_role_query (as_str r) ≡ as_str r
unfolding normalize_role_query
normalize_token r = rw (token_normal r, alias_of_token r) (ap as_str (from_token-as_str r))

-- Normalising a role query a second time changes nothing.
pub normalize_role_query_idem :
    (q : Text) → normalize_role_query (normalize_role_query q) ≡ normalize_role_query q
normalize_role_query_idem q =
    let n = to_ascii_lowercase (trim q) in
    let e : normalize_role_query q ≡ as_str (unwrap_or (role_query_alias n) (from_token n)) =
      unfold normalize_role_query in refl in
    rw e (normalize_token (unwrap_or (role_query_alias n) (from_token n)))

-- The only role whose token is "unknown" is `unknown`.
token_unknown : (r : Role) → as_str r ≡ codes "unknown" → r ≡ unknown
token_unknown r e = sym (from_token-as_str r) ∙ ap from_token e ∙ (unfold from_token in refl)

alias_known : Text × Role → Bool
alias_known (s, r) = is_known r

match_alias_known :
    (arms : List (Text × Role)) (t : Text) (r : Role)
    → all alias_known arms ≡ true
    → match_alias arms t ≡ some r
    → is_known r ≡ true
unfolding match_alias alias_known
match_alias_known [] t r h e = cc
match_alias_known ((s, x) ∷ arms) t r h e =
    let (known, rest) = &&-true (is_known x) _ h in
    elim (Bool-cases (text_eq t s)) [
      | inl q ↦ subst (λ y. is_known y ≡ true) (some-injective x r (rw (q, match_alias) at e)) known
      | inr q ↦ match_alias_known arms t r rest (rw (q, match_alias) at e)
    ]

query_alias_known : (t : Text) (r : Role) → role_query_alias t ≡ some r → is_known r ≡ true
unfolding role_query_alias
query_alias_known t r e = match_alias_known aliases t r (unfold alias_known is_known in refl) e

-- The two tests on a normal text that is no alias.
canonical_query_iff :
    (n : Text)
    → to_ascii_lowercase (trim n) ≡ n
    → ((not (text_eq n (codes "unknown")) && is_canonical n) ≡ true)
      ↔ (as_str (from_token n) ≢ codes "unknown")
canonical_query_iff n normal = (forth, back)
  where
    token : is_canonical n ≡ true → as_str (from_token n) ≡ n
    token c = (is_canonical_iff n).0 c ∙ normal

    forth :
        (not (text_eq n (codes "unknown")) && is_canonical n) ≡ true
        → as_str (from_token n) ≢ codes "unknown"
    forth h e =
        let c : is_canonical n ≡ true = ground arith in
        let same : text_eq n (codes "unknown") ≡ true =
          rw (← token c, e) (text_eq_refl (codes "unknown")) in
        ground arith

    back :
        as_str (from_token n) ≢ codes "unknown"
        → (not (text_eq n (codes "unknown")) && is_canonical n) ≡ true
    back ne =
        let c : is_canonical n ≡ true =
          (is_canonical_iff n).1
            (from_token_sound n (λ e. ne (ap as_str e ∙ (unfold as_str in refl)))) in
        ground
          (arith, text_eq→eq n (codes "unknown"), λ (e : n ≡ codes "unknown"). ne (token c ∙ e))

-- A role query is accepted exactly when it does not normalise to "unknown".
pub is_valid_role_query_iff :
    (q : Text) → (is_valid_role_query q ≡ true) ↔ (normalize_role_query q ≢ codes "unknown")
unfolding is_valid_role_query normalize_role_query
is_valid_role_query_iff q =
    let n = to_ascii_lowercase (trim q) in
    elim (Option-cases (role_query_alias n)) [
      | inl e ↦ rw e (canonical_query_iff n (lower_trim_idem q))
      | inr (r, e) ↦
          rw e (λ h u. is_known→ne r (query_alias_known n r e) (token_unknown r u), λ h. refl)
    ]

-- A role with a mutable value is interactive, or it is `handle` or `scroll_bar`.
pub mutable_value_interactive :
    (r : Role)
    → mutable_value r ≡ true
    → (is_interactive r ≡ true) ⊎ (r ≡ handle) ⊎ (r ≡ scroll_bar)
unfolding mutable_value is_interactive
mutable_value_interactive r h = ground arith
