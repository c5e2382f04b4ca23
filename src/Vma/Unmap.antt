-- ===== src/Vma/Unmap.antt =====
-- `mm_unmap`: what it takes away and what it leaves.
use c_loyha.Base.{ℕ, ◌+◌, ◌≤◌, ◌<◌, ◌≡◌, ◌≢◌, ◌∙◌, refl, sym, ap, arith, min, max, Bool}
use c_loyha.Base.{
  true, false, not, ◌&&◌, ◌||◌, ◌==◌, leb, ltb, if◌then◌else◌, Bool-cases, inl, inr, Option,
}
use c_loyha.Base.{none, some, List, [], ◌∷◌}
use c_loyha.Vma.{Vma, Mm, contains, overlaps, find_vma, insert_vma, cut, cut_all, insert_split}
use c_loyha.Vma.{mm_unmap, align_up, is_aligned, u64, user_space_start}
use c_loyha.Vma.{unmap_pages, unmap_regions}
use c_loyha.Vma.Find.{Sorted, Sorted-mono, find_vma_below}

-- The access rights and the kind of the region that an address is in.
unfoldable pub rights : List Vma → ℕ → Option (ℕ × ℕ)
rights vs addr = elim (find_vma vs addr) [ none ↦ none | some v ↦ some (v.prot, v.flags) ]

abbrev pub is_some : Option (ℕ × ℕ) → Bool
is_some none = false
is_some (some x) = true

nil_regions :
    (va : ℕ) (inside present : Bool)
    → present ≡ (if inside && is_some (rights [] va) then false else present)
unfolding rights find_vma
nil_regions va true present = refl
nil_regions va false present = refl

-- The loop on a list whose first region starts after the range: nothing is cut.
cut_all_above :
    (vs : List Vma) (low addr fin : ℕ) (has_memory : Bool)
    → Sorted low vs
    → fin ≤ low
    → cut_all vs addr fin has_memory ≡ (vs, none)
unfolding cut_all cut
cut_all_above [] low addr fin has_memory s le = refl
cut_all_above (v ∷ vs) low addr fin has_memory s le =
    ground (arith, cut_all_above vs v.end addr fin has_memory s.2)

split_above :
    (vs : List Vma) (low addr fin : ℕ) (nv : Vma)
    → Sorted low vs
    → (cut_all vs addr fin true).1 ≡ some nv
    → low ≤ nv.start
unfolding cut_all cut
split_above [] low addr fin nv s e = cc
split_above (v ∷ vs) low addr fin nv s e = ground (arith, split_above vs v.end addr fin nv s.2)

insert_split_cons :
    (x : Vma) (ks : List Vma) (split : Option Vma)
    → ((nv : Vma) → split ≡ some nv → x.start ≤ nv.start)
    → insert_split (x ∷ ks, split) ≡ x ∷ insert_split (ks, split)
unfolding insert_split insert_vma
insert_split_cons x ks none h = refl
insert_split_cons x ks (some nv) h = ground (arith, h nv refl)

insert_vma_step :
    (x nv : Vma) (vs : List Vma)
    → x.start ≤ nv.start
    → insert_vma (x ∷ vs) nv ≡ x ∷ insert_vma vs nv
unfolding insert_vma
insert_vma_step x nv vs le = ground arith

insert_vma_front :
    (vs : List Vma) (low : ℕ) (nv : Vma)
    → Sorted low vs
    → nv.start < low
    → insert_vma vs nv ≡ nv ∷ vs
unfolding insert_vma
insert_vma_front [] low nv s lt = refl
insert_vma_front (v ∷ vs) low nv s lt = ground arith

-- What a region leaves outside the range: a part before it and a part behind it.
abbrev pieces : Vma → ℕ → ℕ → List Vma → List Vma
pieces v addr fin rest =
    let behind = if ltb fin v.end then record v { start = min fin v.end } ∷ rest else rest in
    if not (overlaps v addr fin)
    then v ∷ rest
    else if ltb v.start addr
    then record v { end = max addr v.start } ∷ behind
    else behind

abbrev remains : List Vma → ℕ → ℕ → List Vma
remains [] addr fin = []
remains (v ∷ vs) addr fin = pieces v addr fin (remains vs addr fin)

cut-pieces :
    (v : Vma) (vs : List Vma) (low addr fin : ℕ) (out : List Vma × Option Vma) (rest : List Vma)
    → Sorted low (v ∷ vs)
    → addr < fin
    → (fin ≤ v.end → out ≡ (vs, none))
    → ((x : Vma) → x.start ≤ v.end → insert_split (x ∷ out.0, out.1) ≡ x ∷ rest)
    → insert_split out ≡ rest
    → insert_split (cut v addr fin true out) ≡ pieces v addr fin rest
unfolding cut insert_split
cut-pieces v vs low addr fin out rest s lt quiet step same = ground (
  arith,
  step v,
  step (record v { start = min fin v.end }),
  step (record v { end = max addr v.start }),
  insert_vma_step (record v { end = max addr v.start }) (record v { start = min fin v.end }) vs,
  insert_vma_front vs v.end (record v { start = min fin v.end }) s.2,
)

left_remains :
    (vs : List Vma) (low addr fin : ℕ)
    → Sorted low vs
    → addr < fin
    → insert_split (cut_all vs addr fin true) ≡ remains vs addr fin
unfolding cut_all insert_split
left_remains [] low addr fin s lt = refl
left_remains (v ∷ vs) low addr fin s lt =
    let ih = left_remains vs v.end addr fin s.2 lt in
    cut-pieces v vs low addr fin (cut_all vs addr fin true) (remains vs addr fin) s lt
      (λ le. cut_all_above vs v.end addr fin true s.2 le)
      (λ x le.
        insert_split_cons x (cut_all vs addr fin true).0 (cut_all vs addr fin true).1
          (λ nv e. omega (arith, split_above vs v.end addr fin nv s.2 e))
        ∙ ap (λ ks. x ∷ ks) ih)
      ih

remains-Sorted :
    (vs : List Vma) (low addr fin : ℕ)
    → Sorted low vs
    → addr < fin
    → Sorted low (remains vs addr fin)
remains-Sorted [] low addr fin s lt = s
remains-Sorted (v ∷ vs) low addr fin s lt =
    let ih = remains-Sorted vs v.end addr fin s.2 lt in
    ground (
      arith,
      Sorted-mono (remains vs addr fin) v.end low,
      Sorted-mono (remains vs addr fin) v.end (max addr v.start),
      Sorted-mono (remains vs addr fin) v.end fin,
    )

rights_cons :
    (v : Vma) (vs : List Vma) (a : ℕ)
    → rights (v ∷ vs) a ≡ (if contains v a then some (v.prot, v.flags) else rights vs a)
unfolding rights find_vma
rights_cons v vs a = elim (Bool-cases (contains v a)) [
  | inl inside ↦ rw (inside, rights) refl
  | inr outside ↦ rw (outside, rights) refl
]

rights_nil : (a : ℕ) (inside : Bool) → rights [] a ≡ (if inside then none else rights [] a)
unfolding rights find_vma
rights_nil a true = refl
rights_nil a false = refl

rights_below : (vs : List Vma) (low a : ℕ) → Sorted low vs → a < low → rights vs a ≡ none
unfolding rights
rights_below vs low a s lt = rw (rights, find_vma_below vs low a s lt) refl

rights-pieces :
    (v : Vma) (vs : List Vma) (low addr fin a : ℕ) (rest : List Vma)
    → Sorted low (v ∷ vs)
    → addr < fin
    → rights rest a ≡ (if leb addr a && ltb a fin then none else rights vs a)
    → rights (pieces v addr fin rest) a
      ≡ (if leb addr a && ltb a fin then none else rights (v ∷ vs) a)
rights-pieces v vs low addr fin a rest s lt ih =
    let behind = record v { start = min fin v.end } ∷ rest in
    ground (
      arith,
      rights_cons v vs a,
      rights_cons v rest a,
      rights_cons (record v { start = min fin v.end }) rest a,
      rights_cons (record v { end = max addr v.start }) rest a,
      rights_cons (record v { end = max addr v.start }) behind a,
      rights_below vs v.end a s.2,
    )

rights-remains :
    (vs : List Vma) (low addr fin a : ℕ)
    → Sorted low vs
    → addr < fin
    → rights (remains vs addr fin) a ≡ (if leb addr a && ltb a fin then none else rights vs a)
rights-remains [] low addr fin a s lt = rights_nil a (leb addr a && ltb a fin)
rights-remains (v ∷ vs) low addr fin a s lt =
    rights-pieces v vs low addr fin a (remains vs addr fin) s lt
      (rights-remains vs v.end addr fin a s.2 lt)

unmap_pages_lem :
    (present : ℕ → Bool) (start fin va : ℕ)
    → unmap_pages present start fin va ≡ (if leb start va && ltb va fin then false else present va)
unfolding unmap_pages
unmap_pages_lem present start fin va = refl

unmap_regions_lem :
    (vs : List Vma) (addr fin : ℕ) (present : ℕ → Bool) (va : ℕ)
    → unmap_regions vs addr fin present va
      ≡ (if (leb addr va && ltb va fin) && is_some (rights vs va) then false else present va)
unfolding unmap_regions
unmap_regions_lem [] addr fin present va = nil_regions va (leb addr va && ltb va fin) (present va)
unmap_regions_lem (v ∷ vs) addr fin present va = ground (
  arith,
  rights_cons v vs va,
  unmap_pages_lem present (max addr v.start) (min fin v.end) va,
  unmap_regions_lem vs addr fin (unmap_pages present (max addr v.start) (min fin v.end)) va,
  unmap_regions_lem vs addr fin present va,
)

-- `mm_unmap` of `addr` to `fin`, with memory for a region that is split: the list stays in order, the
-- addresses of the range are in no region any more, every other address has the rights it had, and
-- of the pages exactly those of regions in the range are taken away.
pub mm_unmap_lem :
    (mm : Mm) (addr len : ℕ)
    → Sorted user_space_start mm.vmas
    → addr < 18446744073709551616
    → ((mm_unmap mm true addr len).0 ≡ false → (mm_unmap mm true addr len).1 ≡ mm)
      × ((mm_unmap mm true addr len).0 ≡ true
          → Sorted user_space_start (mm_unmap mm true addr len).1.vmas
            × ((a : ℕ)
                → rights (mm_unmap mm true addr len).1.vmas a ≡ (
                    if leb addr a && ltb a (u64 (addr + align_up len))
                    then none
                    else rights mm.vmas a))
            × ((va : ℕ)
                → (mm_unmap mm true addr len).1.present va ≡ (
                    if (leb addr va && ltb va (u64 (addr + align_up len)))
                      && is_some (rights mm.vmas va)
                    then false
                    else mm.present va)))
unfolding mm_unmap
mm_unmap_lem mm addr len s lt =
    elim (Bool-cases
      (not (is_aligned addr) || align_up len == 0 || ltb (u64 (addr + align_up len)) addr)) [
        | inl refused ↦ rw refused (λ e. refl, λ ne. absurd (ne_false ne))
        | inr going ↦
            let fin = u64 (addr + align_up len) in
            let below : addr < fin = ground arith in
            let list = left_remains mm.vmas user_space_start addr fin s below in
            rw (going, list)
              (
                λ e. absurd (ne_false (sym e)),
                λ e. (
                  remains-Sorted mm.vmas user_space_start addr fin s below,
                  (λ a. rights-remains mm.vmas user_space_start addr fin a s below),
                  λ va. unmap_regions_lem mm.vmas addr fin mm.present va,
                ),
              )
      ]
  where
    ne_false : false ≢ true
    ne_false e = cc
