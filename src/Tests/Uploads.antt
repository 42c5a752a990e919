-- ===== src/Tests/Uploads.antt =====
-- The upload checks at concrete inputs.
use doc_manage_and_generatio.Prelude.{◌≡◌, ◌↔◌}
use doc_manage_and_generatio.Text.{strip}
use doc_manage_and_generatio.Outcome.{ok}
use doc_manage_and_generatio.Uploads.{normalize_upload_filename}
use doc_manage_and_generatio.Uploads.Names.{IsSafeName, normalize_upload_filename_iff}

normalize_upload_filename_iff_example :
    (normalize_upload_filename " plan.pdf " ≡ ok "plan.pdf")
    ↔ (("plan.pdf" ≡ strip " plan.pdf ") × IsSafeName "plan.pdf")
normalize_upload_filename_iff_example = normalize_upload_filename_iff " plan.pdf " "plan.pdf"
