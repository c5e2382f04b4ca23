-- ===== src/Pmm/Held.antt =====
-- The blocks that are in use, and what the rest of the kernel may write into pages.
use c_loyha.Base.{ℕ, ◌+◌, ◌^◌, ◌≤◌, ◌≡◌, arith, true}
use c_loyha.Base.{List, [], ◌∷◌, ◌++◌}
use c_loyha.Pmm.{Page, Area}
use c_loyha.Pmm.Blocks.{in_block}
use c_loyha.Pmm.Buddy.{Flagged}

-- How often blocks, each an order and a first page, cover the page `i`.
unfoldable pub held_cover : List (ℕ × ℕ) → ℕ → ℕ
held_cover [] i = 0
held_cover ((order, p) ∷ bs) i = in_block order p i + held_cover bs i

-- What others may do to the pages: flag none of this zone's, and leave the order of the flagged.
abbrev pub Untouched : Area → (ℕ → Page) → Type 0
Untouched a page =
    (p : ℕ)
    → Page.buddy (page p) ≡ true
    → a.zone.start_pfn ≤ p
    → p + 2 ^ Page.order (page p) ≤ a.zone.end_pfn
    → (Page.buddy (a.page p) ≡ true) × (Page.order (page p) ≡ Page.order (a.page p))

pub held_cover-without :
    (bs cs : List (ℕ × ℕ)) (order p i : ℕ)
    → held_cover (bs ++ ((order, p) ∷ cs)) i ≡ held_cover (bs ++ cs) i + in_block order p i
unfolding held_cover
held_cover-without [] cs order p i = omega arith
held_cover-without ((o, q) ∷ bs) cs order p i = omega (arith, held_cover-without bs cs order p i)

pub others-Flagged :
    (a : Area) (page : ℕ → Page) → Untouched a page → Flagged a → Flagged (record a { page = page })
unfolding Flagged
others-Flagged a page untouched flagged p flag small low high =
    let (was, same) = untouched p flag low high in
    let listed = flagged p was in ground (arith, listed)
