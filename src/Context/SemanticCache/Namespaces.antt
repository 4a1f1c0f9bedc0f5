-- ===== src/Context/SemanticCache/Namespaces.antt =====
-- The entries and the exact index of one tenant, which every operation keeps in step.
use penny_core.Prelude.{
  ℕ, suc, ◌+◌, ◌-◌, ◌<◌, ◌≤◌, ◌≡◌, refl, sym, subst, ap, String, true, false, none, some, [], ◌∷◌,
  inl, inr, arith, string_eq, nat_eq, eq_iff, Bool-cases, length, ltb, nat_beq, drop, ◌∙◌, ◌==◌,
}
use penny_core.Dict
use penny_core.Dict.{Dict, get-put, get-remove}
use penny_core.Dict.Ordered.{move_to_end, unique, get-move_to_end, unique-move_to_end}
use penny_core.Context.SemanticCache.{CacheEntry, Namespace, evict}

module _ {Vec : Type 0} where
  -- The exact index leads from each entry's key to the entry, and to nothing else; the ids are
  -- below the next one.
  pub record IsSynced (next : ℕ) (ns : Namespace Vec) (index : Dict String ℕ) : Type 0 where
    pub is_unique : unique ns ≡ true
    pub named :
        (eid : ℕ) (entry : CacheEntry Vec)
        → Dict.get ns eid ≡ some entry
        → Dict.get index entry.key_text ≡ some eid
    pub indexed :
        (key : String) (eid : ℕ)
        → Dict.get index key ≡ some eid
        → (entry : CacheEntry Vec) × (Dict.get ns eid ≡ some entry) × (entry.key_text ≡ key)
    pub fresh : (eid : ℕ) (entry : CacheEntry Vec) → Dict.get ns eid ≡ some entry → eid < next

  missing_of_unique :
      (ns : Namespace Vec) (eid : ℕ) (entry : CacheEntry Vec)
      → unique ((eid, entry) ∷ ns) ≡ true
      → Dict.get ns eid ≡ none
  unfolding unique
  missing_of_unique ns eid entry u = ground (arith, u)

  pub empty-IsSynced : (next : ℕ) → IsSynced next [] []
  unfolding Dict.get unique
  empty-IsSynced next = record {
    is_unique = refl;
    named = λ eid entry h. cc h;
    indexed = λ key eid h. cc h;
    fresh = λ eid entry h. cc h;
  }

  -- An id may be skipped.
  pub IsSynced-later :
      (next : ℕ) (ns : Namespace Vec) (index : Dict String ℕ)
      → IsSynced next ns index
      → IsSynced (suc next) ns index
  IsSynced-later next ns index v = record {
    is_unique = v.is_unique;
    named = v.named;
    indexed = v.indexed;
    fresh = λ eid entry h. omega (arith, v.fresh eid entry h);
  }

  -- An entry that is there is replaced by one for the same key, and moved to the end.
  pub touch-IsSynced :
      (next : ℕ) (ns : Namespace Vec) (index : Dict String ℕ) (eid : ℕ)
      (entry changed : CacheEntry Vec)
      → IsSynced next ns index
      → Dict.get ns eid ≡ some entry
      → changed.key_text ≡ entry.key_text
      → IsSynced next (move_to_end eid changed ns) index
  touch-IsSynced next ns index eid entry changed v there same = record {
    is_unique = unique-move_to_end ns eid changed v.is_unique;
    named = λ i e h.
        ground
          (arith, get-move_to_end ns eid i changed, v.named eid entry there, v.named i e, same, h);
    indexed = λ key i h.
        let (e, at, k) = v.indexed key i h in
        elim (Bool-cases (nat_beq eid i)) [
          | inl here ↦
              let same_id : eid ≡ i = ground (arith, here) in
              let same_entry : some entry ≡ some e = cc (there, at, same_id) in
              (
                changed,
                ground (arith, get-move_to_end ns eid i changed, here),
                ground (arith, same, same_entry, k),
              )
          | inr other ↦ (e, ground (arith, get-move_to_end ns eid i changed, other, at), k)
        ];
    fresh = λ i e h.
        ground (arith, get-move_to_end ns eid i changed, v.fresh eid entry there, v.fresh i e, h);
  }

  -- A new entry under the next id.
  pub insert-IsSynced :
      (next : ℕ) (ns : Namespace Vec) (index : Dict String ℕ) (entry : CacheEntry Vec)
      → IsSynced next ns index
      → Dict.get index entry.key_text ≡ none
      → IsSynced (suc next) (move_to_end next entry ns) (Dict.put index entry.key_text next)
  insert-IsSynced next ns index entry v new = record {
    is_unique = unique-move_to_end ns next entry v.is_unique;
    named = λ i e h. ground (
      arith,
      get-move_to_end ns next i entry,
      get-put index entry.key_text e.key_text next,
      eq_iff entry.key_text e.key_text,
      v.named i e,
      new,
      h,
    );
    indexed = λ key i h. elim (Bool-cases (entry.key_text == key)) [
      | inl same ↦ (
        entry,
        ground (
          arith,
          get-put index entry.key_text key next,
          get-move_to_end ns next i entry,
          same,
          h,
        ),
        (eq_iff entry.key_text key).0 same,
      )
      | inr other ↦
          let (e, at, k) =
            v.indexed key i (ground (arith, get-put index entry.key_text key next, other, h)) in
          (e, ground (arith, get-move_to_end ns next i entry, v.fresh i e at, at), k)
    ];
    fresh = λ i e h. ground (arith, get-move_to_end ns next i entry, v.fresh i e, h);
  }

  get-head :
      (eid : ℕ) (entry : CacheEntry Vec) (ns : Namespace Vec)
      → Dict.get ((eid, entry) ∷ ns) eid ≡ some entry
  unfolding Dict.get
  get-head eid entry ns = ground arith

  -- An entry for another key than the first one's is behind it.
  behind_head :
      (eid : ℕ) (entry : CacheEntry Vec) (ns : Namespace Vec) (i : ℕ) (e : CacheEntry Vec)
      (key : String)
      → Dict.get ((eid, entry) ∷ ns) i ≡ some e
      → e.key_text ≡ key
      → (entry.key_text == key) ≡ false
      → Dict.get ns i ≡ some e
  unfolding Dict.get
  behind_head eid entry ns i e key at k other =
      ground (arith, at, k, other, eq_iff entry.key_text key)

  -- The oldest entry is dropped with its key.
  pop-IsSynced :
      (next eid : ℕ) (entry : CacheEntry Vec) (ns : Namespace Vec) (index : Dict String ℕ)
      → IsSynced next ((eid, entry) ∷ ns) index
      → IsSynced next ns (Dict.remove index entry.key_text)
  unfolding Dict.get unique
  pop-IsSynced next eid entry ns index v =
      let alone : Dict.get ns eid ≡ none = missing_of_unique ns eid entry v.is_unique in
      let there : (i : ℕ) (e : CacheEntry Vec)
          → Dict.get ns i ≡ some e
          → Dict.get ((eid, entry) ∷ ns) i ≡ some e =
        λ i e h. ground (arith, alone, h) in
      let first : Dict.get index entry.key_text ≡ some eid = v.named eid entry (ground arith) in
      record {
        is_unique = ground (arith, v.is_unique);
        named = λ i e h. ground (
          arith,
          get-remove index entry.key_text e.key_text,
          eq_iff entry.key_text e.key_text,
          v.named i e (there i e h),
          first,
          alone,
          h,
        );
        indexed = λ key i h. elim (Bool-cases (entry.key_text == key)) [
          | inl same ↦ ground (arith, get-remove index entry.key_text key, same, h)
          | inr other ↦
              let (e, at, k) =
                v.indexed key i (ground (arith, get-remove index entry.key_text key, other, h)) in
              (e, behind_head eid entry ns i e key at k other, k)
        ];
        fresh = λ i e h. v.fresh i e (there i e h);
      }

  evict-pop :
      (max_entries eid : ℕ) (entry : CacheEntry Vec) (ns : Namespace Vec) (index : Dict String ℕ)
      (n : ℕ)
      → max_entries < suc (length ns)
      → Dict.get index entry.key_text ≡ some eid
      → evict max_entries ((eid, entry) ∷ ns) index n
        ≡ evict max_entries ns (Dict.remove index entry.key_text) (suc n)
  unfolding evict
  evict-pop max_entries eid entry ns index n full named = ground (arith, full, named)

  evict-stop :
      (max_entries : ℕ) (ns : Namespace Vec) (index : Dict String ℕ) (n : ℕ)
      → length ns ≤ max_entries
      → evict max_entries ns index n ≡ (ns, index, n)
  unfolding evict
  evict-stop max_entries [] index n fits = refl
  evict-stop max_entries ((eid, entry) ∷ ns) index n fits = ground (arith, fits)

  -- The loop stops with the newest entries, still synced, having counted what it dropped.
  abbrev pub Evicts : ℕ → ℕ → Namespace Vec → ℕ → Namespace Vec × Dict String ℕ × ℕ → Type 0
  Evicts max_entries next ns n (kept, index, m) =
      IsSynced next kept index
      × (kept ≡ drop (length ns - max_entries) ns)
      × (m ≡ n + (length ns - max_entries))

  stop-Evicts :
      (max_entries next : ℕ) (ns : Namespace Vec) (index : Dict String ℕ) (n : ℕ)
      → IsSynced next ns index
      → length ns ≤ max_entries
      → Evicts max_entries next ns n (evict max_entries ns index n)
  stop-Evicts max_entries next ns index n v fits =
      let none_over : length ns - max_entries ≡ 0 = omega (arith, fits) in
      subst (Evicts max_entries next ns n) (sym (evict-stop max_entries ns index n fits))
        (v, ap (λ k. drop k ns) (sym none_over), omega (arith, none_over))

  pop-Evicts :
      (max_entries next eid : ℕ) (entry : CacheEntry Vec) (ns : Namespace Vec) (n : ℕ)
      (r : Namespace Vec × Dict String ℕ × ℕ)
      → max_entries < suc (length ns)
      → Evicts max_entries next ns (suc n) r
      → Evicts max_entries next ((eid, entry) ∷ ns) n r
  pop-Evicts max_entries next eid entry ns n (kept, index, m) full (v, k, c) =
      let one_more : suc (length ns - max_entries) ≡ suc (length ns) - max_entries =
        omega (arith, full) in
      (v, k ∙ ap (λ j. drop j ((eid, entry) ∷ ns)) one_more, omega (arith, c, one_more))

  pub evict-Evicts :
      (max_entries next : ℕ) (ns : Namespace Vec) (index : Dict String ℕ) (n : ℕ)
      → IsSynced next ns index
      → Evicts max_entries next ns n (evict max_entries ns index n)
  evict-Evicts max_entries next [] index n v =
      stop-Evicts max_entries next [] index n v (omega arith)
  evict-Evicts max_entries next ((eid, entry) ∷ ns) index n v =
      elim (Bool-cases (ltb max_entries (suc (length ns)))) [
        | inr fits ↦
            stop-Evicts max_entries next ((eid, entry) ∷ ns) index n v (ground (arith, fits))
        | inl full ↦
            let over : max_entries < suc (length ns) = ground (arith, full) in
            let index' = Dict.remove index entry.key_text in
            subst (Evicts max_entries next ((eid, entry) ∷ ns) n)
              (sym (
                evict-pop max_entries eid entry ns index n over
                  (v.named eid entry (get-head eid entry ns))))
              (pop-Evicts max_entries next eid entry ns n (evict max_entries ns index' (suc n)) over
                (evict-Evicts max_entries next ns index' (suc n)
                  (pop-IsSynced next eid entry ns index v)))
      ]
