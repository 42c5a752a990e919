-- ===== src/Documents/Titles.antt =====
-- Two documents that are in the same folder, and not in the recycle bin, have different titles.
pub mod Changes
pub mod Reachable
pub mod Uploads
use doc_manage_and_generatio.Prelude.{
  ℕ, String, Bool, true, false, not, Option, none, some, List, ◌≡◌, ◌≢◌, refl, ◌⊎◌, inl, inr, Memᴰ,
  arith, ap, any, any-false, same_key, same_key→eq, same_key_refl, str_eq, str_eq_iff,
  mem-update_where, ==_iff, ◌==◌, Bool-cases,
}
use doc_manage_and_generatio.Text.{strip}
use doc_manage_and_generatio.Outcome.{Result, ok, err}
use doc_manage_and_generatio.Schema.{Db, Document, is_deleted}
use doc_manage_and_generatio.Documents.Guards.{
  Candidate, is_neighbour, has_title, takes_name, ensure_folder_accepts_document, save_document,
}

-- A title as the API stores it: stripped, and not empty.
pub record IsClean (title : String) : Type 0 where
  pub stripped : strip title ≡ title
  pub filled : title ≢ ""

pub record TitlesAreUnique (db : Db) : Type 0 where
  pub clean : (d : Document) → Memᴰ d db.documents → IsClean d.title
  pub unique :
      (a b : Document)
      → Memᴰ a db.documents
      → Memᴰ b db.documents
      → is_deleted a ≡ false
      → is_deleted b ≡ false
      → a.folder ≡ b.folder
      → a.title ≡ b.title
      → a.pk ≡ b.pk

no_name_taken :
    (db : Db) (c : Candidate)
    → ensure_folder_accepts_document db c ≡ ok tt
    → any (takes_name db c) db.documents ≡ false
unfolding ensure_folder_accepts_document
no_name_taken db c h = ground arith

-- A document that does not take the candidate's name, and has its title, is the candidate's own.
own_title :
    (db : Db) (c : Candidate) (d : Document) (t : String)
    → takes_name db c d ≡ false
    → c.title ≡ some t
    → IsClean t
    → is_deleted d ≡ false
    → d.folder ≡ c.folder
    → d.title ≡ t
    → c.exclude_document_id ≡ some d.pk
unfolding takes_name is_neighbour has_title
own_title db c d t h e clean live same_folder same_title =
    same_key→eq c.exclude_document_id (some d.pk) (
      ground (
        arith,
        str_eq_iff t "",
        str_eq_iff d.title t,
        ==_iff d.folder c.folder,
        ap strip same_title,
      ))

-- A folder that accepts a candidate holds no other document of its title.
pub accepted_title :
    (db : Db) (c : Candidate) (d : Document) (t : String)
    → ensure_folder_accepts_document db c ≡ ok tt
    → c.title ≡ some t
    → IsClean t
    → Memᴰ d db.documents
    → is_deleted d ≡ false
    → d.folder ≡ c.folder
    → d.title ≡ t
    → c.exclude_document_id ≡ some d.pk
accepted_title db c d t h e clean m =
    own_title db c d t (any-false (takes_name db c) db.documents (no_name_taken db c h) m) e clean

-- the row `e` may stand in the table: it is in the recycle bin, or no other row has its title
abbrev pub Fits : Db → Document → Type 0
Fits db e =
    (d : Document)
    → Memᴰ d db.documents
    → is_deleted d ≡ false
    → is_deleted e ≡ false
    → d.folder ≡ e.folder
    → d.title ≡ e.title
    → d.pk ≡ e.pk

pub save_document-TitlesAreUnique :
    (db : Db) (e : Document)
    → TitlesAreUnique db
    → IsClean e.title
    → Fits db e
    → TitlesAreUnique (save_document e db)
unfolding save_document
save_document-TitlesAreUnique db e inv clean fits = record {
  clean = λ d m.
      let (a, n, h) = mem-update_where (λ x. x.pk == e.pk) (λ x. e) db.documents m in
      elim h [ inl (t, q) ↦ rw q clean | inr (t, q) ↦ rw q (inv.clean a n) ];
  unique = λ a b ma mb la lb f t.
      let (a', na, ha) = mem-update_where (λ x. x.pk == e.pk) (λ x. e) db.documents ma in
      let (b', nb, hb) = mem-update_where (λ x. x.pk == e.pk) (λ x. e) db.documents mb in
      elim ha [
        | inl (ta, qa) ↦ elim hb [ inl (tb, qb) ↦ cc | inr (tb, qb) ↦ ground (arith, fits b' nb) ]
        | inr (ta, qa) ↦ elim hb [
          | inl (tb, qb) ↦ ground (arith, fits a' na)
          | inr (tb, qb) ↦ ground (arith, inv.unique a' b' na nb)
        ]
      ];
}
