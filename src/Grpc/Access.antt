-- ===== src/Grpc/Access.antt =====
-- pkg/grpc/server.go: who may call. The metadata of a call are `none` when its context has none.
use syncmesh.Common.{
  ◌≡◌, refl, ◌↔◌, ◌⊎◌, inl, inr, String, Bool, true, false, Option, none, some, maybe, List, [],
  ◌∷◌, ◌==◌, Map, lookup, if◌then◌else◌, arith, eq_iff, Option-cases, Bool-cases, ap, ◌∙◌,
}
use syncmesh.Config.{SecurityConfig}

pub data AuthError : Type 0 where
  missing_metadata missing_token invalid_token : AuthError

-- `isValidToken`.
unfoldable pub is_valid_token : List String → String → Bool
is_valid_token [] token = false
is_valid_token (valid ∷ tokens) token =
    let later = is_valid_token tokens token in if token == valid then true else later

unfoldable pub check_tokens : SecurityConfig → Option (List String) → Option AuthError
check_tokens security (some (token ∷ tokens)) =
    if is_valid_token security.auth_tokens token then none else some AuthError.invalid_token
check_tokens security (some []) = some AuthError.missing_token
check_tokens security none = some AuthError.missing_token

-- `authenticate`.
unfoldable pub authenticate : SecurityConfig → Option (Map (List String)) → Option AuthError
authenticate security incoming =
    let checked =
      maybe incoming (some AuthError.missing_metadata)
        λ md. check_tokens security (lookup "authorization" md) in
    if security.auth_enabled then checked else none

-- `unaryInterceptor` and `streamInterceptor`: the state that the handler changes, and its answer.
unfoldable pub intercept :
    {S A : Type 0}
    → SecurityConfig
    → Option (Map (List String))
    → (S → S × A)
    → S
    → S × (AuthError ⊎ A)
intercept security incoming handler s =
    let handled = handler s in
    maybe (authenticate security incoming) (handled.0, inr handled.1) λ e. (s, inl e)

-- The token is one of the list.
abbrev pub IsListed : String → List String → Type 0
IsListed token [] = ⊥
IsListed token (valid ∷ tokens) = (token ≡ valid) ⊎ IsListed token tokens

-- Authentication is off, or the first token of the call is configured.
abbrev pub MayCall : SecurityConfig → Option (Map (List String)) → Type 0
MayCall security incoming =
    (security.auth_enabled ≡ false)
    ⊎ ((md : Map (List String)) × (token : String) × (rest : List String) × (incoming ≡ some md)
        × (lookup "authorization" md ≡ some (token ∷ rest))
        × IsListed token security.auth_tokens)

is_valid_token_iff :
    (tokens : List String) (token : String)
    → (is_valid_token tokens token ≡ true) ↔ IsListed token tokens
unfolding is_valid_token
is_valid_token_iff [] token = ground arith
is_valid_token_iff (valid ∷ tokens) token =
    ground (arith, eq_iff token valid, is_valid_token_iff tokens token)

-- The first token of a list that may be missing is configured, or the call is refused.
check_tokens-cases :
    (security : SecurityConfig) (found : Option (List String))
    → ((token : String) × (rest : List String) × (found ≡ some (token ∷ rest))
        × IsListed token security.auth_tokens
        × (check_tokens security found ≡ none))
      ⊎ ((token : String) (rest : List String)
          → found ≡ some (token ∷ rest)
          → ¬ IsListed token security.auth_tokens)
        × ((e : AuthError) × (check_tokens security found ≡ some e))
unfolding check_tokens
check_tokens-cases security none =
    inr (λ token rest e. ground arith, (AuthError.missing_token, refl))
check_tokens-cases security (some []) =
    inr (λ token rest e. ground arith, (AuthError.missing_token, refl))
check_tokens-cases security (some (token ∷ rest)) =
    elim (Bool-cases (is_valid_token security.auth_tokens token)) [
      | inl e ↦
          inl (token, rest, refl, (is_valid_token_iff security.auth_tokens token).0 e, rw e refl)
      | inr e ↦ inr (
        λ other more f h. ground (arith, is_valid_token_iff security.auth_tokens other),
        (AuthError.invalid_token, rw e refl),
      )
    ]

authenticate-cases :
    (security : SecurityConfig) (incoming : Option (Map (List String)))
    → MayCall security incoming × (authenticate security incoming ≡ none)
      ⊎ (¬ MayCall security incoming)
        × ((e : AuthError) × (authenticate security incoming ≡ some e))
unfolding authenticate check_tokens
authenticate-cases security incoming = elim (Bool-cases security.auth_enabled) [
  | inr off ↦ inl (inl off, rw off refl)
  | inl enabled ↦ elim (Option-cases incoming) [
    | inl bare ↦ inr (
      λ may. elim may [ inl off ↦ ground arith | inr (md, token, rest, e, _, _) ↦ ground arith ],
      (AuthError.missing_metadata, rw (enabled, bare) refl),
    )
    | inr (md, given) ↦ elim (check_tokens-cases security (lookup "authorization" md)) [
      | inl (token, rest, e, listed, passes) ↦
          inl (inr (md, token, rest, given, e, listed), rw enabled (rw given passes))
      | inr (unlisted, (error, refused)) ↦ inr (
        λ may. elim may [
          | inl off ↦ ground arith
          | inr (other, token, rest, e, f, listed) ↦
              unlisted token rest
                (ap (λ (m : Map (List String)). lookup "authorization" m)
                    (same md other incoming given e)
                  ∙ f)
                listed
        ],
        (error, rw enabled (rw given refused)),
      )
    ]
  ]
]
  where
    same :
        (a b : Map (List String)) (o : Option (Map (List String))) → o ≡ some a → o ≡ some b → a ≡ b
    same a b o e f = ground arith

module _ {S A : Type 0} where
  -- A call reaches its handler if authentication is off or the first token of its metadata is one of
  -- the configured; every other call is refused with an error and changes nothing.
  pub intercept-cases :
      (security : SecurityConfig) (incoming : Option (Map (List String))) (handler : S → S × A)
      (s : S)
      → MayCall security incoming
          × (intercept security incoming handler s ≡ ((handler s).0, inr (handler s).1))
        ⊎ (¬ MayCall security incoming)
          × ((e : AuthError) × (intercept security incoming handler s ≡ (s, inl e)))
  unfolding intercept
  intercept-cases security incoming handler s = elim (authenticate-cases security incoming) [
    | inl (may, e) ↦ inl (may, rw e refl)
    | inr (no_right, (error, e)) ↦ inr (no_right, (error, rw e refl))
  ]
