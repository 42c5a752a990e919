-- ===== src/Folders/Defaults.antt =====
-- apps/folders/defaults.py: the standard public roots and the archive root.
use doc_manage_and_generatio.Prelude.{ℕ, String, Option, List, [], ◌∷◌, str_eq, any, find?}

pub record StandardFolderDefinition : Type 0 where
  pub code : String
  pub name : String
  pub sort_order : ℕ
  pub aliases : List String

abbrev pub names : StandardFolderDefinition → List String
names d = d.name ∷ d.aliases

abbrev pub entry_preparation_root_code : String
entry_preparation_root_code = "PUBLIC-COMPLETION"

abbrev define : String → String → ℕ → List String → StandardFolderDefinition
define code name sort_order aliases = record {
  code = code;
  name = name;
  sort_order = sort_order;
  aliases = aliases;
}

unfoldable pub standard_public_roots : List StandardFolderDefinition
standard_public_roots =
    define entry_preparation_root_code "入场前置资料" 1
      ("竣工资料档案" ∷ "竣工档案资料" ∷ "完工资料档案" ∷ "完工资料" ∷ "档案资料" ∷ "项目过程资料" ∷ "过程资料" ∷ "检测报告" ∷ "其他附件" ∷ [])
    ∷ define "PUBLIC-COMPANY" "公司资质" 2 []
    ∷ define "PUBLIC-TECH-SOLUTION" "技术方案" 3 []
    ∷ define "PUBLIC-REPORT-TEMPLATE" "报告模板" 4 []
    ∷ define "PUBLIC-TOOLS" "工器具及年检资质" 5 ("工具及年检资质" ∷ "工器具年检资质" ∷ [])
    ∷ define "PUBLIC-INSTRUMENT" "仪器仪表设备年检资质" 6 ("仪器设备年检资质" ∷ [])
    ∷ define "PUBLIC-VEHICLE" "车辆年检资质" 7 ("车辆年检及资质" ∷ [])
    ∷ define "PUBLIC-STAFF" "人员资质" 8 []
    ∷ define "PUBLIC-STAFF-INSURANCE" "人员保险单" 9 ("人员报销单" ∷ [])
    ∷ define "PUBLIC-PROTECTION" "个人防护用品" 10 ("劳动防护用品资料" ∷ "劳动防护用品" ∷ [])
    ∷ []

unfoldable pub archive_root : StandardFolderDefinition
archive_root = define "PUBLIC-ARCHIVE" "已归档文件" 99 ("归档材料" ∷ "归档资料" ∷ [])

unfoldable pub standard_root_for_name : String → Option StandardFolderDefinition
unfolding standard_public_roots
standard_root_for_name folder_name =
    find? (λ d. any (str_eq folder_name) (names d)) standard_public_roots

unfoldable pub standard_root_for_code : String → Option StandardFolderDefinition
unfolding standard_public_roots
standard_root_for_code folder_code = find? (λ d. str_eq folder_code d.code) standard_public_roots
