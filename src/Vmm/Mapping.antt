-- ===== src/Vmm/Mapping.antt =====
-- What `vmm_map_page`, `vmm_unmap_page` and `vmm_update_flags` of kernel/mm/vmm.c do to the translation of
-- every address.
use c_loyha.Base.{ℕ, ◌+◌, ◌*◌, ◌/◌, ◌%◌, ◌<◌, ◌≡◌, ◌≢◌, ◌⊎◌, inl, inr, refl, sym, ap, ◌∙◌, arith}
use c_loyha.Base.{not, ◌||◌, ◌==◌, if◌then◌else◌, Bool-cases, Option, none, some}
use native.Mathlib.Decide.{ℕ_discrete}
use c_loyha.Vma.{page_size}
use c_loyha.Vmm.{
  Vmm, word, set_word, write_at, pte_present, pte_addr, pte_flags, index, is_user_address,
  translate_from, vmm_translate, vmm_flush_page, flush_if_seen,
}
use c_loyha.Vmm.Tree.{Places, slot, prefix, index-lt, translate_at}
use c_loyha.Vmm.Writes.{write_same, leaf-Tree, leaf-translate}
use c_loyha.Vmm.Space.{Space}
use c_loyha.Vmm.Tables.{Sound-ram, cover_ram}

-- The page of an address: its bits from 12 to 47.
abbrev pub page_of : ℕ → ℕ
page_of v = v / 0x1000 % 0x1000000000

pub path_of_page : (a virt : ℕ) → page_of a ≡ page_of virt → prefix 0 a ≡ prefix 0 virt
path_of_page a virt same = omega arith

pub index_of_page : (a virt : ℕ) → page_of a ≡ page_of virt → index 0 a ≡ index 0 virt
index_of_page a virt same = omega arith

other_page :
    (a virt : ℕ)
    → page_of a ≢ page_of virt
    → (prefix 0 a ≢ prefix 0 virt) ⊎ (index 0 a ≢ index 0 virt)
other_page a virt ne = elim (ℕ_discrete (prefix 0 a) (prefix 0 virt)) [
  | yes e ↦ inr (λ f. ne (omega arith))
  | no other ↦ inl other
]

-- What the last entry of an address says.
abbrev pub read_leaf : ℕ → ℕ → Option (ℕ × ℕ)
read_leaf e a = if pte_present e then some (pte_addr e + a % page_size, pte_flags e) else none

translate_leaf :
    (ram : ℕ → ℕ) (q a : ℕ)
    → translate_from 0 ram (q * 4096) a ≡ read_leaf (ram (slot q (index 0 a))) a
unfolding translate_from
translate_leaf ram q a = refl

-- Addresses of the page are translated by the entry that is written, all others as before.
unfoldable pub Rewritten : Vmm → ℕ → ℕ → ℕ → Vmm → Type 0
Rewritten st pml4 virt w st' =
    ((a : ℕ) → page_of a ≡ page_of virt → vmm_translate st' pml4 a ≡ read_leaf w a)
    × ((a : ℕ) → page_of a ≢ page_of virt → vmm_translate st' pml4 a ≡ vmm_translate st pml4 a)

module _ (st : Vmm) (root : ℕ) (place : Places) (q virt w : ℕ) (space : Space st root place)
    (fits : root < 0x10000000000) (at : place q ≡ some (0, prefix 0 virt)) where
  start : pte_addr (root * 4096) ≡ root * 4096
  start = omega arith

  abbrev after : Vmm
  after = set_word st (slot q (index 0 virt)) w

  pub set_entry-Space : Space after root place
  set_entry-Space =
      let ram' = write_at (word st) (slot q (index 0 virt)) w in
      record {
        tree =
            leaf-Tree (word st) root place q (index 0 virt) (prefix 0 virt) w space.tree at
              (index-lt 0 virt);
        sound = Sound-ram st.pmm ram' space.sound;
        once = λ n. omega (arith, cover_ram st.pmm ram' n, space.once n);
        used = λ q' x here. cover_ram st.pmm ram' q' ∙ space.used q' x here;
        frames_fit = space.frames_fit;
        buddy = space.buddy;
      }

  pub set_entry-Rewritten : Rewritten st (root * 4096) virt w after
  unfolding vmm_translate Rewritten
  set_entry-Rewritten = (
    λ a same.
        let ram' = write_at (word st) (slot q (index 0 virt)) w in
        let here : place q ≡ some (0, prefix 0 a) =
          at ∙ ap (λ (x : ℕ). some (0, x)) (sym (path_of_page a virt same)) in
        let entry : ram' (slot q (index 0 a)) ≡ w =
          ap (λ (i : ℕ). ram' (slot q i)) (index_of_page a virt same)
          ∙ write_same (word st) (slot q (index 0 virt)) w in
        ap (λ (t : ℕ). translate_from 3 ram' t a) start
        ∙ translate_at ram' root place (Space.tree set_entry-Space) 0 q a here
        ∙ translate_leaf ram' q a
        ∙ ap (λ (e : ℕ). read_leaf e a) entry,
    λ a other.
        let ram' = write_at (word st) (slot q (index 0 virt)) w in
        ap (λ (t : ℕ). translate_from 3 ram' t a) start
        ∙ leaf-translate (word st) root place q (index 0 virt) (prefix 0 virt) w space.tree at
            (index-lt 0 virt) a (other_page a virt other)
        ∙ ap (λ (t : ℕ). translate_from 3 (word st) t a) (sym start),
  )

  -- What the entry said before.
  pub translate_entry :
      vmm_translate st (root * 4096) virt ≡ read_leaf (word st (slot q (index 0 virt))) virt
  unfolding vmm_translate
  translate_entry =
      ap (λ (t : ℕ). translate_from 3 (word st) t virt) start
      ∙ translate_at (word st) root place space.tree 0 q virt at
      ∙ translate_leaf (word st) q virt

-- Taking a page out of the translation caches leaves the tables alone.
pub flush_if_seen-Space :
    (st : Vmm) (root : ℕ) (place : Places) (pml4 virt : ℕ)
    → Space st root place
    → Space (flush_if_seen st pml4 virt) root place
unfolding vmm_flush_page
flush_if_seen-Space st root place pml4 virt space =
    elim (Bool-cases ((pml4 == st.cr3) || not (is_user_address virt))) [
      | inl seen ↦ rw seen (record {
        tree = space.tree;
        sound = space.sound;
        once = space.once;
        used = space.used;
        frames_fit = space.frames_fit;
        buddy = space.buddy;
      })
      | inr unseen ↦ rw unseen space
    ]

flush_if_seen-translate :
    (st : Vmm) (pml4 virt table a : ℕ)
    → vmm_translate (flush_if_seen st pml4 virt) table a ≡ vmm_translate st table a
unfolding vmm_flush_page vmm_translate
flush_if_seen-translate st pml4 virt table a =
    elim (Bool-cases ((pml4 == st.cr3) || not (is_user_address virt))) [
      | inl seen ↦ rw seen refl
      | inr unseen ↦ rw unseen refl
    ]

pub flush-Rewritten :
    (st st' : Vmm) (pml4 virt w : ℕ)
    → Rewritten st pml4 virt w st'
    → Rewritten st pml4 virt w (flush_if_seen st' pml4 virt)
unfolding Rewritten
flush-Rewritten st st' pml4 virt w (inside, outside) = (
  λ a same. flush_if_seen-translate st' pml4 virt pml4 a ∙ inside a same,
  λ a other. flush_if_seen-translate st' pml4 virt pml4 a ∙ outside a other,
)
