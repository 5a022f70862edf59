-- ===== src/Domain/Enums.antt =====
-- The enumerations of app/domain/enums that retrieval uses, with their wire values.
use vertical_ai_research_act.Prelude.{
  ℕ, ◌≡◌, refl, ◌↔◌, String, Bool, true, false, Option, none, some, arith, eqb, Eq, string_eq, ◌==◌,
  if◌then◌else◌,
}

pub data FamilyName : Type 0 where
  research_knowledge_recall docs_search paper_search web_search : FamilyName

abbrev pub family_index : FamilyName → ℕ
family_index research_knowledge_recall = 0
family_index docs_search = 1
family_index paper_search = 2
family_index web_search = 3

pub family_eq_iff : (a b : FamilyName) → (eqb (family_index a) (family_index b) ≡ true) ↔ (a ≡ b)
family_eq_iff a b = ground arith

instance abbrev pub family_eq : Eq FamilyName
family_eq = record { beq = λ a b. eqb (family_index a) (family_index b); beq_iff = family_eq_iff }

-- `family.value`
abbrev pub family_value : FamilyName → String
family_value research_knowledge_recall = "research_knowledge_recall"
family_value docs_search = "docs_search"
family_value paper_search = "paper_search"
family_value web_search = "web_search"

-- `FamilyName(value)`
abbrev pub family_of : String → Option FamilyName
family_of s =
    if s == "research_knowledge_recall"
    then some research_knowledge_recall
    else if s == "docs_search"
    then some docs_search
    else if s == "paper_search"
    then some paper_search
    else if s == "web_search"
    then some web_search
    else none

pub data AcquisitionStatus : Type 0 where
  success partial_success no_result failed : AcquisitionStatus

abbrev pub acquisition_value : AcquisitionStatus → String
acquisition_value success = "success"
acquisition_value partial_success = "partial_success"
acquisition_value no_result = "no_result"
acquisition_value failed = "failed"

abbrev pub acquisition_of : String → Option AcquisitionStatus
acquisition_of s =
    if s == "success"
    then some success
    else if s == "partial_success"
    then some partial_success
    else if s == "no_result"
    then some no_result
    else if s == "failed"
    then some failed
    else none

-- `status == AcquisitionStatus.FAILED`
abbrev pub is_failed : AcquisitionStatus → Bool
is_failed failed = true
is_failed _ = false

-- `status in {AcquisitionStatus.FAILED, AcquisitionStatus.NO_RESULT}`
abbrev pub is_failed_or_empty : AcquisitionStatus → Bool
is_failed_or_empty failed = true
is_failed_or_empty no_result = true
is_failed_or_empty _ = false

pub data ActionMode : Type 0 where
  memory_backed_acquisition external_acquisition any_acquisition : ActionMode

abbrev pub action_mode_value : ActionMode → String
action_mode_value memory_backed_acquisition = "memory_backed_acquisition"
action_mode_value external_acquisition = "external_acquisition"
action_mode_value any_acquisition = "any"

pub data RetrievalResultUtility : Type 0 where
  highly_useful strongly_useful useful weakly_useful not_useful : RetrievalResultUtility

-- A family's wire value names that family.
pub family_of-value : (f : FamilyName) → family_of (family_value f) ≡ some f
family_of-value research_knowledge_recall = refl
family_of-value _ = refl

pub acquisition_of-value : (a : AcquisitionStatus) → acquisition_of (acquisition_value a) ≡ some a
acquisition_of-value success = refl
acquisition_of-value _ = refl
