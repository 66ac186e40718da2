-- ===== src/Sources/Registry/Merged.antt =====
-- What `collect_all` of validator/sources/registry.py keeps: one candidate for each key, the last.
use transparent_gateway.Prelude.{
  ◌≡◌, ◌↔◌, refl, sym, ap, ◌∙◌, subst, true, Option, none, some, List, [], ◌∷◌, ◌++◌, arith, Text,
  nat_eq, nat_beq_iff, text_eq, text_beq_iff, Bool-cases, inl, inr, if◌then◌else◌,
}
use transparent_gateway.Python.{Result, ok, err}
use transparent_gateway.Sources.Candidate.{ProxyCandidate}
use transparent_gateway.Sources.Registry.{
  Key, key_of, same_reference, same_key, upsert, upsert_all, merge, collect_all,
}

same_reference_iff : (r s : Option Text) → (same_reference r s ≡ true) ↔ (r ≡ s)
unfolding same_reference
same_reference_iff none none = ((λ h. refl), (λ h. refl))
same_reference_iff none (some s) = ground arith
same_reference_iff (some r) none = ground arith
same_reference_iff (some r) (some s) = ground (arith, text_beq_iff r s)

same_key_iff : (k j : Key) → (same_key k j ≡ true) ↔ (k ≡ j)
unfolding same_key
same_key_iff (p, h, n, r) (q, i, m, s) =
    ground (arith, text_beq_iff p q, text_beq_iff h i, nat_beq_iff n m, same_reference_iff r s)

-- The candidate for a key.
unfoldable pub find : Key → List ProxyCandidate → Option ProxyCandidate
find k [] = none
find k (c ∷ cs) = if same_key (key_of c) k then some c else find k cs

-- The candidates of the connectors that did not fail, in their order.
unfoldable pub collected_candidates : List (Result (List ProxyCandidate)) → List ProxyCandidate
collected_candidates [] = []
collected_candidates (err e ∷ rs) = collected_candidates rs
collected_candidates (ok cs ∷ rs) = cs ++ collected_candidates rs

-- The last candidate with a key, or else a default.
unfoldable pub last_with : Key → List ProxyCandidate → Option ProxyCandidate → Option ProxyCandidate
last_with k [] d = d
last_with k (c ∷ cs) d = last_with k cs (if same_key (key_of c) k then some c else d)

find-upsert :
    (k : Key) (c : ProxyCandidate) (ds : List ProxyCandidate)
    → find k (upsert c ds) ≡ (if same_key (key_of c) k then some c else find k ds)
unfolding find upsert
find-upsert k c [] = refl
find-upsert k c (d ∷ ds) = ground (
  arith,
  find-upsert k c ds,
  same_key_iff (key_of c) (key_of d),
  same_key_iff (key_of d) k,
  same_key_iff (key_of c) k,
)

find-upsert_all :
    (k : Key) (cs ds : List ProxyCandidate) → find k (upsert_all cs ds) ≡ last_with k cs (find k ds)
unfolding upsert_all last_with
find-upsert_all k [] ds = refl
find-upsert_all k (c ∷ cs) ds =
    find-upsert_all k cs (upsert c ds) ∙ ap (last_with k cs) (find-upsert k c ds)

last_with-append :
    (k : Key) (cs ds : List ProxyCandidate) (o : Option ProxyCandidate)
    → last_with k (cs ++ ds) o ≡ last_with k ds (last_with k cs o)
unfolding last_with
last_with-append k [] ds o = refl
last_with-append k (c ∷ cs) ds o = last_with-append k cs ds _

find-merge :
    (k : Key) (rs : List (Result (List ProxyCandidate))) (ds : List ProxyCandidate)
    → find k (merge rs ds) ≡ last_with k (collected_candidates rs) (find k ds)
unfolding merge collected_candidates last_with
find-merge k [] ds = refl
find-merge k (err e ∷ rs) ds = find-merge k rs ds
find-merge k (ok cs ∷ rs) ds =
    find-merge k rs (upsert_all cs ds)
    ∙ ap (last_with k (collected_candidates rs)) (find-upsert_all k cs ds)
    ∙ sym (last_with-append k cs (collected_candidates rs) (find k ds))

-- For each key, the merged list holds the last candidate that a connector gave for it, and none if
-- none did; a connector that fails gives none.
pub find-collect_all :
    (k : Key) (collected : List (Result (List ProxyCandidate)))
    → find k (collect_all collected) ≡ last_with k (collected_candidates collected) none
unfolding collect_all find
find-collect_all k collected = find-merge k collected []

-- No key stands twice.
unfoldable pub AreUnique : List ProxyCandidate → Type 0
AreUnique [] = Unit {0}
AreUnique (c ∷ cs) = (find (key_of c) cs ≡ none) × AreUnique cs

upsert-AreUnique :
    (c : ProxyCandidate) (ds : List ProxyCandidate) → AreUnique ds → AreUnique (upsert c ds)
unfolding AreUnique upsert find
upsert-AreUnique c [] h = (refl, tt)
upsert-AreUnique c (d ∷ ds) h = elim (Bool-cases (same_key (key_of c) (key_of d))) [
  | inl same ↦
      rw same
        (subst (λ k. find k ds ≡ none) (sym ((same_key_iff (key_of c) (key_of d)).0 same)) h.0, h.1)
  | inr other ↦ rw other (find-upsert (key_of d) c ds ∙ rw other h.0, upsert-AreUnique c ds h.1)
]

upsert_all-AreUnique : (cs ds : List ProxyCandidate) → AreUnique ds → AreUnique (upsert_all cs ds)
unfolding upsert_all
upsert_all-AreUnique [] ds h = h
upsert_all-AreUnique (c ∷ cs) ds h = upsert_all-AreUnique cs (upsert c ds) (upsert-AreUnique c ds h)

merge-AreUnique :
    (rs : List (Result (List ProxyCandidate))) (ds : List ProxyCandidate)
    → AreUnique ds
    → AreUnique (merge rs ds)
unfolding merge
merge-AreUnique [] ds h = h
merge-AreUnique (err e ∷ rs) ds h = merge-AreUnique rs ds h
merge-AreUnique (ok cs ∷ rs) ds h =
    merge-AreUnique rs (upsert_all cs ds) (upsert_all-AreUnique cs ds h)

-- No two candidates of the merged list have the same protocol, host, port and reference.
pub collect_all-AreUnique :
    (collected : List (Result (List ProxyCandidate))) → AreUnique (collect_all collected)
unfolding collect_all AreUnique
collect_all-AreUnique collected = merge-AreUnique collected [] tt
