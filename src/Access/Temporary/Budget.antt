-- ===== src/Access/Temporary/Budget.antt =====
-- A token opens its version at most as often as it may.
use doc_manage_and_generatio.Prelude.{
  ℕ, suc, ◌+◌, ◌≤◌, String, Bool, true, false, none, some, List, [], ◌∷◌, ◌≡◌, refl, inl, inr,
  arith, if◌then◌else◌, Option-cases, find?-update_where, str_eq, ◌==◌, ==_refl,
}
use doc_manage_and_generatio.Outcome.{Result, ok, err}
use doc_manage_and_generatio.Schema.{
  Db, Request, DocumentVersion, TemporaryAccessGrant, remaining_downloads,
}
use doc_manage_and_generatio.Documents.Files.{System}
use doc_manage_and_generatio.Access.Temporary.{
  used_at, use_access, find_token, consume_grant, consume_temporary_access_token,
}

abbrev pub is_ok {ℓ} : {A : Type ℓ} → Result A → Bool
is_ok (ok a) = true
is_ok (err e) = false

-- the downloads that the token with this hash has left
abbrev pub remaining : String → Db → ℕ
remaining token_hash db = elim (find_token token_hash db) [
  | none ↦ 0
  | some g ↦ remaining_downloads g
]

find_token-use_access :
    (token_hash : String) (request : Request) (db : Db) (g : TemporaryAccessGrant)
    → find_token token_hash db ≡ some g
    → find_token token_hash (use_access request g db)
      ≡ some (used_at (g.used_count + 1) (request.now 1) g)
unfolding find_token use_access
find_token-use_access token_hash request db g h = ground (
  arith,
  ==_refl g.pk,
  find?-update_where (λ x. str_eq x.token_hash token_hash) (λ x. x.pk == g.pk)
      (used_at (g.used_count + 1) (request.now 1)) db.temporary_grants (λ a t. refl),
)

-- What one use of a token does to the downloads it has left.
record Spends (token_hash : String) (before : Db) (r : Result DocumentVersion × System)
    : Type 0 where
  never_more : remaining token_hash r.1.db ≤ remaining token_hash before
  one_less : is_ok r.0 ≡ true → remaining token_hash r.1.db + 1 ≡ remaining token_hash before

consume_grant-Spends :
    (token_hash : String) (request : Request) (g : TemporaryAccessGrant) (sys : System)
    → find_token token_hash sys.db ≡ some g
    → Spends token_hash sys.db (consume_grant request g sys)
unfolding consume_grant find_token
consume_grant-Spends token_hash request g sys h = record {
  never_more = ground (arith, find_token-use_access token_hash request sys.db g h);
  one_less = ground (arith, find_token-use_access token_hash request sys.db g h);
}

module _ (hash : String → String) (token : String) where
  consume-Spends :
      (request : Request) (sys : System)
      → Spends (hash token) sys.db (consume_temporary_access_token hash request token sys)
  unfolding consume_temporary_access_token
  consume-Spends request sys = elim (Option-cases (find_token (hash token) sys.db)) [
    | inl e ↦ record { never_more = ground arith; one_less = ground arith }
    | inr (g, e) ↦
        let s = consume_grant-Spends (hash token) request g sys e in
        record { never_more = ground (arith, s.never_more); one_less = ground (arith, s.one_less) }
  ]

  -- How many of these requests with the token are served, one after the other.
  unfoldable pub served : List Request → System → ℕ
  served [] sys = 0
  served (request ∷ requests) sys =
      let (r, sys') = consume_temporary_access_token hash request token sys in
      let later = served requests sys' in if is_ok r then suc later else later

  -- However many requests bring the token, and at whatever times, no more of them are served than
  -- the token had downloads left.
  pub served-le-remaining :
      (requests : List Request) (sys : System) → served requests sys ≤ remaining (hash token) sys.db
  unfolding served
  served-le-remaining [] sys = omega arith
  served-le-remaining (request ∷ requests) sys =
      let s = consume-Spends request sys in
      ground (
        arith,
        s.never_more,
        s.one_less,
        served-le-remaining requests (consume_temporary_access_token hash request token sys).1,
      )
