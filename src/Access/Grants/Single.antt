-- ===== src/Access/Grants/Single.antt =====
-- A user has at most one grant on a document that is not revoked.
use doc_manage_and_generatio.Prelude.{
  ℕ, Bool, true, false, Option, none, some, List, [], ◌∷◌, ◌++◌, ◌≡◌, refl, inl, inr, Memᴰ, arith,
  ap, sym, subst, ◌∙◌, ◌==◌, ==_iff, Bool-cases, Option-cases, mem-update_where, mem-concat,
}
use mathlib.Core.List.Memᴰ.{head, tail}
use doc_manage_and_generatio.Outcome.{ok}
use doc_manage_and_generatio.Schema.{Request, DocumentGrant, actor_pk}
use doc_manage_and_generatio.Access.Grants.{
  find_last, is_open_grant, revoke_grant, revoke_row, close_expired,
}

pub record IsSingle (grants : List DocumentGrant) : Type 0 where
  pub single :
      (document user : ℕ) (a b : DocumentGrant)
      → Memᴰ a grants
      → Memᴰ b grants
      → is_open_grant document user a ≡ true
      → is_open_grant document user b ≡ true
      → a.pk ≡ b.pk

find_last-mem :
    (test : DocumentGrant → Bool) (xs : List DocumentGrant) {a : DocumentGrant}
    → find_last test xs ≡ some a
    → Memᴰ a xs × (test a ≡ true)
find_last-mem test [] h = ground arith
find_last-mem test (x ∷ xs) {a} h = elim (Option-cases (find_last test xs)) [
  | inl e ↦
      let same : x ≡ a = ground arith in
      (head (sym same), subst (λ z. test z ≡ true) same (ground arith))
  | inr (b, e) ↦ let (m, t) = find_last-mem test xs (e ∙ ground arith) in (tail m, t)
]

find_last-none :
    (test : DocumentGrant → Bool) (xs : List DocumentGrant) {a : DocumentGrant}
    → find_last test xs ≡ none
    → Memᴰ a xs
    → test a ≡ false
find_last-none test [] h m = elim m [ ]
find_last-none test (x ∷ xs) h (head e) = rw e (ground arith)
find_last-none test (x ∷ xs) h (tail m) = find_last-none test xs (ground arith) m

-- Every open grant of the second table stands for one of the first.
pub traced-IsSingle :
    (grants grants' : List DocumentGrant)
    → ((document user : ℕ) (b : DocumentGrant)
        → Memᴰ b grants'
        → is_open_grant document user b ≡ true
        → (o : DocumentGrant) × Memᴰ o grants
          × (is_open_grant document user o ≡ true)
          × (o.pk ≡ b.pk))
    → IsSingle grants
    → IsSingle grants'
traced-IsSingle grants grants' trace inv = record {
  single = λ document user a b m n is_open is_open'.
      let (o, i, t, e) = trace document user a m is_open in
      let (o', i', t', e') = trace document user b n is_open' in
      sym e ∙ inv.single document user o o' i i' t t' ∙ e';
}

-- A grant that is open after a revocation was open before, and has another key.
open_after_revocation :
    (actor : Option ℕ) (now key document user : ℕ) (grants : List DocumentGrant) (b : DocumentGrant)
    → Memᴰ b (revoke_row actor now key grants)
    → is_open_grant document user b ≡ true
    → Memᴰ b grants × ((b.pk == key) ≡ false)
open_after_revocation actor now key document user grants b m is_open =
    let (a, i, which) = mem-update_where (λ g. g.pk == key) (revoke_grant actor now) grants m in
    elim which [
      | inl (t, e) ↦ ground (arith, ap (λ x. x.revoked_at) e, is_open)
      | inr (t, e) ↦
          (subst (λ x. Memᴰ x grants) (sym e) i, subst (λ x. (x.pk == key) ≡ false) (sym e) t)
    ]

pub revoke_row-IsSingle :
    (actor : Option ℕ) (now key : ℕ) (grants : List DocumentGrant)
    → IsSingle grants
    → IsSingle (revoke_row actor now key grants)
revoke_row-IsSingle actor now key grants = traced-IsSingle grants _ (λ document user b m is_open.
    (b, (open_after_revocation actor now key document user grants b m is_open).0, is_open, refl))

-- What `close_expired` leaves: no open grant of the user on the document.
pub record Closed (document user : ℕ) (grants : List DocumentGrant) : Type 0 where
  single : IsSingle grants
  none_open : (a : DocumentGrant) → Memᴰ a grants → is_open_grant document user a ≡ false

pub close_expired-Closed :
    (request : Request) (document user : ℕ) (grants : List DocumentGrant)
    {grants' : List DocumentGrant}
    → close_expired request document user grants ≡ ok grants'
    → IsSingle grants
    → Closed document user grants'
unfolding close_expired
close_expired-Closed request document user grants {grants'} h inv =
    elim (Option-cases (find_last (is_open_grant document user) grants)) [
      | inl e ↦
          let same : grants ≡ grants' = ground arith in
          subst (Closed document user) same (record {
            single = inv;
            none_open = λ a m. find_last-none (is_open_grant document user) grants e m;
          })
      | inr (g, e) ↦
          let actor = actor_pk request.actor in
          let (i, t) = find_last-mem (is_open_grant document user) grants e in
          let same : revoke_row actor (request.now 3) g.pk grants ≡ grants' = ground arith in
          subst (Closed document user) same (record {
            single = revoke_row-IsSingle actor (request.now 3) g.pk grants inv;
            none_open = λ a m. elim (Bool-cases (is_open_grant document user a)) [
              | inl is_open ↦
                  let (j, other) =
                    open_after_revocation actor (request.now 3) g.pk document user grants a m
                      is_open in
                  absurd (
                    ground
                      (arith, other, inv.single document user a g j i is_open t, ==_iff a.pk g.pk))
              | inr shut ↦ shut
            ];
          })
    ]

pub insert-IsSingle :
    (grants : List DocumentGrant) (g : DocumentGrant)
    → Closed g.document g.user grants
    → IsSingle (grants ++ g ∷ [])
insert-IsSingle grants g closed = record {
  single = λ document user a b m n is_open is_open'. elim (mem-concat grants g m) [
    | inl i ↦ elim (mem-concat grants g n) [
      | inl j ↦ closed.single.single document user a b i j is_open is_open'
      | inr e' ↦ absurd (
          ground (
            arith,
            closed.none_open a i,
            is_open,
            ap (λ x. x.document) e',
            ap (λ x. x.user) e',
            is_open',
          ))
    ]
    | inr e ↦ elim (mem-concat grants g n) [
      | inl j ↦ absurd (
          ground (
            arith,
            closed.none_open b j,
            is_open',
            ap (λ x. x.document) e,
            ap (λ x. x.user) e,
            is_open,
          ))
      | inr e' ↦ ap (λ x. x.pk) (e ∙ sym e')
    ]
  ];
}
