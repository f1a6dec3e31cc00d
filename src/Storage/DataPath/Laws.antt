-- ===== src/Storage/DataPath/Laws.antt =====
-- internal/datapath/datapath.go: which directory `discoverLabelled` picks.
use curio_core.Storage.DataPath.{
  Trees, entry, no_more, more, label_dir, below, walk, Mount, find_label_dirs, Cand, add_cand,
  add_cands, cands_of, is_less, insert_cand, sort_cands, first_path, discover_labelled,
}
use curio_core.Stash.Path.{elements_eq}
use curio_core.Base.{
  head, tail, OnSome, Member, refl, append_assoc, ◌∙◌, All-weaken, All-append, ◌<◌, bytes_eq_iff,
  length, ◌≤◌, any, bytes_eq, Bool-cases, ◌≡◌, ◌∷◌, ◌++◌, All, Bytes, List, suc, zero, arith, ap,
  inr, inl, [], ℕ,
}

-- a labelled directory at most `n` levels below
abbrev pub IsLabelled : ℕ → List Bytes → List Bytes → Type 0
IsLabelled n dir hit =
    (between : List Bytes) × (hit ≡ dir ++ (between ++ (label_dir ∷ []))) × (length between < n)

walk-IsLabelled : (n : ℕ) (dir : List Bytes) (es : Trees) → All (IsLabelled n dir) (walk n dir es)
unfolding walk
walk-IsLabelled zero dir es = tt
walk-IsLabelled (suc n) dir no_more = tt
walk-IsLabelled (suc n) dir (more (entry name is_dir inside) es) =
    let rest = walk-IsLabelled (suc n) dir es in
    elim (Bool-cases is_dir) [
      | inr d ↦ rw d rest
      | inl d ↦ elim (Bool-cases (bytes_eq name label_dir)) [
        | inl e ↦
            rw (d, e)
              (
                ([], ap (λ x. dir ++ (x ∷ [])) ((bytes_eq_iff name label_dir).0 e), omega arith),
                rest,
              )
        | inr e ↦
            rw (d, e)
              (All-append (IsLabelled (suc n) dir) _ _
                (All-weaken (IsLabelled n (below dir name)) (IsLabelled (suc n) dir) _
                  (λ hit (between, same, short).
                    (name ∷ between, same ∙ append_assoc dir (name ∷ []) _, omega (arith, short)))
                  (walk-IsLabelled n (below dir name) inside))
                rest)
      ]
    ]

module _ (free : List Bytes → ℕ) where
  -- a candidate that was found below one of the mounts, with the free space there
  abbrev pub IsFound : ℕ → List Mount → Cand → Type 0
  IsFound depth mounts c =
      (c.free ≡ free c.path) × ((m : Mount) × Member m mounts × IsLabelled depth m.point c.path)

  add_cands-All :
      (P : Cand → Type 0) (hits : List (List Bytes)) (found : List Cand)
      → All (λ h. P (record { path = h; free = free h })) hits
      → All P found
      → All P (add_cands free hits found)
  add_cands-All P [] found h k = k
  add_cands-All P (x ∷ hits) found h k =
      add_cands-All P hits (add_cand free x found) h.1
        (elim (Bool-cases (any (λ c. elements_eq c.path x) found)) [
          | inl e ↦ rw e k
          | inr e ↦ rw e (All-append P found _ k (h.0, tt))
        ])

  cands_of-IsFound :
      (depth : ℕ) (all ms : List Mount) (found : List Cand)
      → ((m : Mount) → Member m ms → Member m all)
      → All (IsFound depth all) found
      → All (IsFound depth all) (cands_of free depth ms found)
  unfolding cands_of find_label_dirs
  cands_of-IsFound depth all [] found up k = k
  cands_of-IsFound depth all (m ∷ ms) found up k =
      cands_of-IsFound depth all ms _ (λ x h. up x (tail h))
        (add_cands-All (IsFound depth all) (walk depth m.point m.entries) found
          (All-weaken (IsLabelled depth m.point) _ (walk depth m.point m.entries)
            (λ hit l. (refl, (m, up m head, l))) (walk-IsLabelled depth m.point m.entries))
          k)

-- the first has as much free space as any
abbrev pub HasRoomiestFirst : List Cand → Type 0
HasRoomiestFirst [] = Unit
HasRoomiestFirst (c ∷ cs) = All (λ x. x.free ≤ c.free) cs

insert_cand-All :
    (P : Cand → Type 0) (c : Cand) (cs : List Cand) → P c → All P cs → All P (insert_cand c cs)
insert_cand-All P c [] h k = (h, tt)
insert_cand-All P c (d ∷ ds) h k = elim (Bool-cases (is_less d c)) [
  | inl e ↦ rw e (k.0, insert_cand-All P c ds h k.1)
  | inr e ↦ rw e (h, k)
]

insert_cand-first :
    (c : Cand) (cs : List Cand) → HasRoomiestFirst cs → HasRoomiestFirst (insert_cand c cs)
unfolding is_less
insert_cand-first c [] h = tt
insert_cand-first c (d ∷ ds) h = elim (Bool-cases (is_less d c)) [
  | inl e ↦ rw e (insert_cand-All (λ x. x.free ≤ d.free) c ds (ground (arith, e)) h)
  | inr e ↦
      let more_room : d.free ≤ c.free = ground (arith, e) in
      rw e (
        more_room,
        All-weaken (λ x. x.free ≤ d.free) (λ x. x.free ≤ c.free) ds
            (λ x l. omega (arith, l, more_room)) h,
      )
]

sort_cands-HasRoomiestFirst : (cs : List Cand) → HasRoomiestFirst (sort_cands cs)
unfolding sort_cands
sort_cands-HasRoomiestFirst [] = tt
sort_cands-HasRoomiestFirst (c ∷ cs) =
    insert_cand-first c (sort_cands cs) (sort_cands-HasRoomiestFirst cs)

sort_cands-All : (P : Cand → Type 0) (cs : List Cand) → All P cs → All P (sort_cands cs)
unfolding sort_cands
sort_cands-All P [] h = tt
sort_cands-All P (c ∷ cs) h = insert_cand-All P c (sort_cands cs) h.0 (sort_cands-All P cs h.1)

-- The directory that `discoverLabelled` picks is labelled, lies at most as deep below a mount as asked,
-- and no candidate has more free space.
pub discover_labelled_best :
    (free : List Bytes → ℕ) (mounts : List Mount) (depth : ℕ)
    → OnSome
        (λ p.
          ((m : Mount) × Member m mounts × IsLabelled depth m.point p)
          × All (λ c. c.free ≤ free p) (sort_cands (cands_of free depth mounts [])))
        (discover_labelled free mounts depth)
unfolding discover_labelled
discover_labelled_best free mounts depth =
    first_good (sort_cands (cands_of free depth mounts []))
      (sort_cands-HasRoomiestFirst (cands_of free depth mounts []))
      (sort_cands-All (IsFound free depth mounts) (cands_of free depth mounts [])
        (cands_of-IsFound free depth mounts mounts [] (λ m h. h) tt))
  where
    first_good :
        (cs : List Cand)
        → HasRoomiestFirst cs
        → All (IsFound free depth mounts) cs
        → OnSome
            (λ p.
              ((m : Mount) × Member m mounts × IsLabelled depth m.point p)
              × All (λ c. c.free ≤ free p) cs)
            (first_path cs)
    first_good [] h k = tt
    first_good (c ∷ cs) h k = (
      k.0.1,
      (
        omega (arith, k.0.0),
        All-weaken (λ x. x.free ≤ c.free) (λ x. x.free ≤ free c.path) cs
            (λ x l. omega (arith, l, k.0.0)) h,
      ),
    )
