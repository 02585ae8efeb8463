-- ===== src/Box/Admission/Heap.antt =====
-- The heap of the entries of the grants of box/runtime.py.
use langbot_plugin_sdk.Prelude.{
  ℕ, ◌≤◌, ◌≡◌, refl, ap, ◌∙◌, inl, inr, ◌⊎◌, some, List, [], ◌∷◌, ltb, All, ◌==◌, string_eq,
  pair_eq, pair_beq_iff, arith, Bool-cases,
}
use langbot_plugin_sdk.Prelude.Dict
use langbot_plugin_sdk.Prelude.Dict.{Dict}
use langbot_plugin_sdk.Box.Admission.{
  Key, Grant, Entry, workspace_key, entry_of, heappush, heapify_grants,
}

abbrev pub Has : Entry → List Entry → Type 0
Has e [] = ⊥
Has e (f ∷ heap) = (e ≡ f) ⊎ Has e heap

abbrev pub IsSorted : List Entry → Type 0
IsSorted [] = Unit
IsSorted (e ∷ heap) = All (λ f. e.expires_at ≤ f.expires_at) heap × IsSorted heap

-- The heap is in order, and every grant has its entry.
pub record IsIndexed (grants : Dict Key Grant) (heap : List Entry) : Type 0 where
  pub sorted : IsSorted heap
  pub keyed : (k : Key) (g : Grant) → Dict.get grants k ≡ some g → workspace_key g ≡ k
  pub indexed : (k : Key) (g : Grant) → Dict.get grants k ≡ some g → Has (entry_of g) heap

pub Has-heappush : (heap : List Entry) (e : Entry) → Has e (heappush heap e)
unfolding heappush
Has-heappush [] e = inl refl
Has-heappush (f ∷ heap) e = elim (Bool-cases (ltb e.expires_at f.expires_at)) [
  | inl sooner ↦ rw (heappush, sooner) (inl refl)
  | inr later ↦ rw (heappush, later) (inr (Has-heappush heap e))
]

pub Has-heappush_other : (heap : List Entry) (e x : Entry) → Has x heap → Has x (heappush heap e)
unfolding heappush
Has-heappush_other [] e x h = inr h
Has-heappush_other (f ∷ heap) e x h = elim (Bool-cases (ltb e.expires_at f.expires_at)) [
  | inl sooner ↦ rw (heappush, sooner) (inr h)
  | inr later ↦
      rw (heappush, later)
        (elim h [ inl first ↦ inl first | inr more ↦ inr (Has-heappush_other heap e x more) ])
]

All-heappush :
    (n : ℕ) (heap : List Entry) (e : Entry)
    → n ≤ e.expires_at
    → All (λ f. n ≤ f.expires_at) heap
    → All (λ f. n ≤ f.expires_at) (heappush heap e)
unfolding heappush
All-heappush n [] e h a = (h, tt)
All-heappush n (f ∷ heap) e h a = elim (Bool-cases (ltb e.expires_at f.expires_at)) [
  | inl sooner ↦ rw (heappush, sooner) (h, a)
  | inr later ↦ rw (heappush, later) (a.0, All-heappush n heap e h a.1)
]

All-sooner :
    (m n : ℕ) (heap : List Entry)
    → m ≤ n
    → All (λ f. n ≤ f.expires_at) heap
    → All (λ f. m ≤ f.expires_at) heap
All-sooner m n [] h a = tt
All-sooner m n (f ∷ heap) h a = (omega (arith, h, a.0), All-sooner m n heap h a.1)

pub IsSorted-heappush : (heap : List Entry) (e : Entry) → IsSorted heap → IsSorted (heappush heap e)
unfolding heappush
IsSorted-heappush [] e v = (tt, tt)
IsSorted-heappush (f ∷ heap) e v = elim (Bool-cases (ltb e.expires_at f.expires_at)) [
  | inl sooner ↦
      rw (heappush, sooner)
        (
          (
            ground (arith, sooner),
            All-sooner e.expires_at f.expires_at heap (ground (arith, sooner)) v.0,
          ),
          v,
        )
  | inr later ↦
      rw (heappush, later)
        (All-heappush f.expires_at heap e (ground (arith, later)) v.0, IsSorted-heappush heap e v.1)
]

IsSorted-heapify : (grants : Dict Key Grant) → IsSorted (heapify_grants grants)
unfolding heapify_grants
IsSorted-heapify [] = tt
IsSorted-heapify ((k, g) ∷ grants) =
    IsSorted-heappush (heapify_grants grants) (entry_of g) (IsSorted-heapify grants)

Has-heapify :
    (grants : Dict Key Grant) (k : Key) (g : Grant)
    → Dict.get grants k ≡ some g
    → Has (entry_of g) (heapify_grants grants)
unfolding heapify_grants Dict.get
Has-heapify [] k g h = cc
Has-heapify ((j, f) ∷ grants) k g h = elim (Bool-cases (j == k)) [
  | inl same ↦ rw (some_inj (rw same at h)) (Has-heappush (heapify_grants grants) (entry_of g))
  | inr other ↦
      Has-heappush_other (heapify_grants grants) (entry_of f) (entry_of g)
        (Has-heapify grants k g (rw other at h))
]
  where
    some_inj : {x y : Grant} → some x ≡ some y → x ≡ y
    some_inj e = cc

-- What a new grant finds at a key.
get-set_cases :
    (grants : Dict Key Grant) (new : Grant) (k : Key) (g : Grant)
    → Dict.get (Dict.set grants (workspace_key new) new) k ≡ some g
    → ((workspace_key new ≡ k) × (g ≡ new)) ⊎ (Dict.get grants k ≡ some g)
get-set_cases grants new k g h =
    ground
      (arith, h, Dict.get-set grants (workspace_key new) new k, pair_beq_iff (workspace_key new) k)

keyed-set :
    (grants : Dict Key Grant) (new : Grant)
    → ((k : Key) (g : Grant) → Dict.get grants k ≡ some g → workspace_key g ≡ k)
    → (k : Key) (g : Grant) → Dict.get (Dict.set grants (workspace_key new) new) k ≡ some g
    → workspace_key g ≡ k
keyed-set grants new v k g h = elim (get-set_cases grants new k g h) [
  | inl (same, e) ↦ ap workspace_key e ∙ same
  | inr old ↦ v k g old
]

-- A grant is put in with a new entry.
pub push-IsIndexed :
    (grants : Dict Key Grant) (heap : List Entry) (g : Grant)
    → IsIndexed grants heap
    → IsIndexed (Dict.set grants (workspace_key g) g) (heappush heap (entry_of g))
push-IsIndexed grants heap new v = record {
  sorted = IsSorted-heappush heap (entry_of new) v.sorted;
  keyed = keyed-set grants new v.keyed;
  indexed = λ k g h. elim (get-set_cases grants new k g h) [
    | inl (same, e) ↦ rw e (Has-heappush heap (entry_of new))
    | inr old ↦ Has-heappush_other heap (entry_of new) (entry_of g) (v.indexed k g old)
  ];
}

-- All entries are made again.
pub heapify-IsIndexed :
    (grants : Dict Key Grant)
    → ((k : Key) (g : Grant) → Dict.get grants k ≡ some g → workspace_key g ≡ k)
    → IsIndexed grants (heapify_grants grants)
heapify-IsIndexed grants v = record {
  sorted = IsSorted-heapify grants;
  keyed = v;
  indexed = Has-heapify grants;
}
