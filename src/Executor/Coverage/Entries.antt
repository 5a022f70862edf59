-- ===== src/Executor/Coverage/Entries.antt =====
-- Laws of the coverage map as a dictionary, and of the checks on a snapshot.
use text.Mathlib.TextEquality.{eq_iff}
use vertical_ai_research_act.Prelude.{
  ◌≡◌, refl, String, Bool, true, false, ◌||◌, some, List, [], ◌∷◌, arith, contains, string_eq, ◌==◌,
  Distinct, if◌then◌else◌, Bool-cases, inl, inr,
}
use vertical_ai_research_act.Prelude.Result.{Result, ok, ◌>>◌}
use vertical_ai_research_act.Executor.State.{
  EvidenceCoverageEntry, EvidenceCoverageMap, target_keys, find_entry, put_entry,
}
use vertical_ai_research_act.Executor.Coverage.{ensure, all_in}

pub find_entry-put_entry :
    (entries : EvidenceCoverageMap) (k j : String) (e : EvidenceCoverageEntry)
    → find_entry (put_entry entries k e) j ≡ (if k == j then some e else find_entry entries j)
unfolding find_entry put_entry
find_entry-put_entry [] k j e = refl
find_entry-put_entry ((i, old) ∷ entries) k j e =
    ground (arith, eq_iff i k, eq_iff i j, eq_iff k j, find_entry-put_entry entries k j e)

pub target_keys-put_entry :
    (entries : EvidenceCoverageMap) (k j : String) (e : EvidenceCoverageEntry)
    → contains (target_keys (put_entry entries k e)) j
      ≡ (contains (target_keys entries) j || j == k)
unfolding put_entry
target_keys-put_entry [] k j e = ground arith
target_keys-put_entry ((i, old) ∷ entries) k j e =
    ground (arith, eq_iff i k, eq_iff j i, eq_iff j k, target_keys-put_entry entries k j e)

pub Distinct-put_entry :
    (entries : EvidenceCoverageMap) (k : String) (e : EvidenceCoverageEntry)
    → Distinct (target_keys entries)
    → Distinct (target_keys (put_entry entries k e))
unfolding put_entry
Distinct-put_entry [] k e d = (refl, tt)
Distinct-put_entry ((i, old) ∷ entries) k e d = elim (Bool-cases (i == k)) [
  | inl same ↦ rw same d
  | inr other ↦ rw other (
    ground (arith, eq_iff i k, target_keys-put_entry entries k i e),
    Distinct-put_entry entries k e d.1,
  )
]

-- A key of the map has an entry.
pub find_key :
    (entries : EvidenceCoverageMap) (k : String)
    → contains (target_keys entries) k ≡ true
    → (e : EvidenceCoverageEntry) × (find_entry entries k ≡ some e)
unfolding find_entry
find_key [] k h = cc
find_key ((i, e) ∷ entries) k h = elim (Bool-cases (i == k)) [
  | inl same ↦ (e, rw same refl)
  | inr other ↦
      let (found, eq) = find_key entries k (ground (arith, eq_iff i k, eq_iff k i)) in
      (found, rw other eq)
]

-- A key with an entry is a key of the map.
pub key_found :
    (entries : EvidenceCoverageMap) (k : String) (e : EvidenceCoverageEntry)
    → find_entry entries k ≡ some e
    → contains (target_keys entries) k ≡ true
unfolding find_entry
key_found [] k e h = cc
key_found ((i, old) ∷ entries) k e h = elim (Bool-cases (i == k)) [
  | inl same ↦ ground (arith, eq_iff i k, eq_iff k i)
  | inr other ↦ ground (arith, key_found entries k e)
]

-- What a passed check says.
pub ensured {ℓ} :
    {B : Type ℓ} (test : Bool) (message : String) (next : Result B) (b : B)
    → (ensure test message >> next) ≡ ok b
    → (test ≡ true) × (next ≡ ok b)
ensured true message next b h = (refl, h)
ensured false message next b h = cc

pub contains-all_in :
    (xs ys : List String) (k : String)
    → all_in xs ys ≡ true
    → contains xs k ≡ true
    → contains ys k ≡ true
contains-all_in [] ys k h m = cc
contains-all_in (x ∷ xs) ys k h m = elim (Bool-cases (k == x)) [
  | inl same ↦ ground (arith, eq_iff k x)
  | inr other ↦ contains-all_in xs ys k (ground arith) (ground arith)
]

-- Writing to a key that is there keeps the keys.
pub target_keys-put_known :
    (entries : EvidenceCoverageMap) (key k : String) (e : EvidenceCoverageEntry)
    → contains (target_keys entries) key ≡ true
    → contains (target_keys (put_entry entries key e)) k ≡ contains (target_keys entries) k
target_keys-put_known entries key k e h =
    ground (arith, eq_iff k key, target_keys-put_entry entries key k e)
