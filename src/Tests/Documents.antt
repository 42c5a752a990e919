-- ===== src/Tests/Documents.antt =====
-- The document service at concrete inputs.
use mathlib.Core.List.Memᴰ.{head, tail}
use doc_manage_and_generatio.Prelude.{
  List, [], ◌∷◌, ◌≡◌, ◌≢◌, refl, String, arith, str_eq_iff, Memᴰ, ap, ◌∙◌, sym,
}
use doc_manage_and_generatio.Text.{strip, is_space, lstrip, rstrip}
use doc_manage_and_generatio.Outcome.{ok}
use doc_manage_and_generatio.Schema.{Db, Document}
use doc_manage_and_generatio.Documents.Concurrency.{
  soft_delete, restore, apply_change, no_lost_update, Stamped, apply_change-Stamped,
}
use doc_manage_and_generatio.Documents.Entitlement.{
  Authorised, apply_change-Authorised, action_of, flag_of,
}
use doc_manage_and_generatio.Documents.Removal.{permanently_delete_rows}
use doc_manage_and_generatio.Documents.Titles.{IsClean, TitlesAreUnique}
use doc_manage_and_generatio.Documents.Titles.Changes.{apply_change-TitlesAreUnique}
use doc_manage_and_generatio.Documents.Titles.Reachable.{
  IsCleanReach, IsCleanStep, Reach-TitlesAreUnique,
}
use doc_manage_and_generatio.Documents.Files.{System}
use doc_manage_and_generatio.Documents.Steps.{change, here, next}
use doc_manage_and_generatio.Tests.Sample.{trashed, delete_succeeds, request, db}

change_succeeds : apply_change request 20 soft_delete 2000 db ≡ ok (trashed.0, trashed.1)
unfolding apply_change
change_succeeds = delete_succeeds

no_lost_update_example :
    ((r : Document × Db) → apply_change request 20 restore 2000 trashed.1 ≢ ok r)
    × ((r : List String × Db) → permanently_delete_rows request 20 2000 trashed.1 ≢ ok r)
no_lost_update_example =
    no_lost_update request request 20 soft_delete restore 2000 db change_succeeds

apply_change-Stamped_example : Stamped db 20 2000 trashed.0 trashed.1
apply_change-Stamped_example = apply_change-Stamped request 20 soft_delete 2000 db change_succeeds

plan-IsClean : IsClean "plan"
unfolding strip lstrip rstrip is_space
plan-IsClean = record { stripped = refl; filled = λ e. ground (arith, (str_eq_iff "plan" "").1 e) }

budget-IsClean : IsClean "budget"
unfolding strip lstrip rstrip is_space
budget-IsClean = record {
  stripped = refl;
  filled = λ e. ground (arith, (str_eq_iff "budget" "").1 e);
}

titles_are-IsClean : (d : Document) → Memᴰ d db.documents → IsClean d.title
titles_are-IsClean _ (head e) = rw e plan-IsClean
titles_are-IsClean _ (tail (head e)) = rw e budget-IsClean
titles_are-IsClean d (tail (tail x)) = elim x [ ]

different : ◌≢◌ {A = String} "plan" "budget"
different e = ground (arith, (str_eq_iff "plan" "budget").1 e)

titles_differ :
    (a b : Document) → Memᴰ a db.documents → Memᴰ b db.documents → a.title ≡ b.title → a.pk ≡ b.pk
titles_differ a b (head e) (head f) h = ground arith
titles_differ a b (head e) (tail (head f)) h =
    absurd (different (sym (ap (λ x. x.title) e) ∙ h ∙ ap (λ x. x.title) f))
titles_differ a b (tail (head e)) (head f) h =
    absurd (different (sym (ap (λ x. x.title) f) ∙ sym h ∙ ap (λ x. x.title) e))
titles_differ a b (tail (head e)) (tail (head f)) h = ground arith
titles_differ a b (head e) (tail (tail x)) h = elim x [ ]
titles_differ a b (tail (head e)) (tail (tail x)) h = elim x [ ]
titles_differ a b (tail (tail x)) n h = elim x [ ]

db-TitlesAreUnique : TitlesAreUnique db
db-TitlesAreUnique = record {
  clean = titles_are-IsClean;
  unique = λ a b m n live live' same h. titles_differ a b m n h;
}

apply_change-TitlesAreUnique_example : TitlesAreUnique trashed.1
apply_change-TitlesAreUnique_example =
    apply_change-TitlesAreUnique request 20 soft_delete 2000 db tt db-TitlesAreUnique
      change_succeeds

abbrev system : System
system = record { db = db; files = "d1/aa.bin" ∷ [] }

abbrev after_delete : System
after_delete = record { db = trashed.1; files = "d1/aa.bin" ∷ [] }

Reach-TitlesAreUnique_example : TitlesAreUnique after_delete.db
unfolding IsCleanReach IsCleanStep
Reach-TitlesAreUnique_example =
    Reach-TitlesAreUnique {s = system} {t = after_delete}
      (next here (change request 20 soft_delete 2000 change_succeeds refl)) (tt, tt)
      db-TitlesAreUnique

apply_change-Authorised_example :
    Authorised db request 20 (action_of soft_delete) (flag_of soft_delete)
apply_change-Authorised_example =
    apply_change-Authorised request 20 soft_delete 2000 db change_succeeds
