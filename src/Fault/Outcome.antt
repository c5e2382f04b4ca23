-- ===== src/Fault/Outcome.antt =====
-- What a page fault comes to, whichever way it is answered.
use c_loyha.Base.{ℕ, ◌*◌, ◌/◌, ◌%◌, ◌<◌, ◌≡◌, ◌≢◌}
use c_loyha.Base.{Bool, true, false, some}
use c_loyha.Vma.{page_size}
use c_loyha.Pmm.{Pmm, Page}
use c_loyha.Pmm.Pool.{pool_cover}
use c_loyha.Fault.{pte_cow}
use c_loyha.Vmm.{Vmm, word, index, pte_present, pte_writable, is_user_address, vmm_translate}
use c_loyha.Vmm.Tree.{Places, slot, prefix, frame}
use c_loyha.Vmm.Space.{Space}
use c_loyha.Vmm.Tables.{Grown}
use c_loyha.Vmm.Mapping.{page_of}
use c_loyha.Vmm.Pages.{PageEntry, same_translation}
use c_loyha.Fault.Entry.{UserData, load, SameData, Grown-UserData, load_same}

-- The access would succeed now.
abbrev pub Answered : Vmm → ℕ → ℕ → Bool → Type 0
Answered st pml4 virt write =
    (phys : ℕ) × (flags : ℕ) × (vmm_translate st pml4 virt ≡ some (phys, flags))
    × (write ≡ true → pte_writable flags ≡ true)

-- A write to a page that is shared copy-on-write with another owner has been given a page that was
-- free before.
abbrev pub Copied : Vmm → ℕ → Places → ℕ → Bool → Vmm → Type 0
Copied st root place page write st' =
    (q : ℕ)
    → place q ≡ some (0, prefix 0 page)
    → pte_present (word st (slot q (index 0 page))) ≡ true
    → pte_cow (word st (slot q (index 0 page))) ≡ true
    → Page.refcount (Pmm.mem_map st.pmm (frame (word st (slot q (index 0 page))))) ≢ 1
    → write ≡ true
    → (phys : ℕ) × (flags : ℕ) × (vmm_translate st' (root * 4096) page ≡ some (phys, flags))
      × (0 < pool_cover st.pmm (phys / page_size))

pub record FaultDone (st : Vmm) (root : ℕ) (place : Places) (page : ℕ) (write ok : Bool) (st' : Vmm)
    : Type 0 where
  pub place' : Places
  pub space : Space st' root place'
  pub user : UserData st' place'
  pub same_nx : st'.pte_nx ≡ st.pte_nx
  pub same_data : SameData st place st' place'
  pub others :
      (a : ℕ)
      → page_of a ≢ page_of page
      → vmm_translate st' (root * 4096) a ≡ vmm_translate st (root * 4096) a
  pub kept :
      (a : ℕ)
      → is_user_address a ≡ true
      → a % 8 ≡ 0
      → PageEntry st place a
      → load st' (root * 4096) a ≡ load st (root * 4096) a
  pub zeros :
      ok ≡ true
      → ¬ PageEntry st place page
      → (a : ℕ) → page_of a ≡ page_of page
      → a % 8 ≡ 0
      → load st' (root * 4096) a ≡ some 0
  pub served : ok ≡ true → Answered st' (root * 4096) page write
  pub copied : ok ≡ true → Copied st root place page write st'
  pub refused :
      ok ≡ false → (a : ℕ) → vmm_translate st' (root * 4096) a ≡ vmm_translate st (root * 4096) a

-- Nothing but tables was made.
pub Grown-FaultDone :
    (st st' : Vmm) (root : ℕ) (place place' : Places) (page : ℕ) (write : Bool)
    → Space st root place
    → root < 0x10000000000
    → UserData st place
    → Grown st root place st' place'
    → FaultDone st root place page write false st'
Grown-FaultDone st st' root place place' page write space fits user grown = record {
  place' = place';
  space = grown.space;
  user = Grown-UserData st st' root place place' grown user;
  same_nx = grown.same_nx;
  same_data = grown.intact;
  others = λ a other. same_translation st st' root place place' a fits grown;
  kept = λ a low aligned entry.
      load_same st st' root place place' a space fits user grown.intact low aligned entry
        (same_translation st st' root place place' a fits grown);
  zeros = λ done. absurd cc;
  served = λ done. absurd cc;
  copied = λ done. absurd cc;
  refused = λ no a. same_translation st st' root place place' a fits grown;
}
