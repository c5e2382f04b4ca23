-- ===== src/Tests/Spaces.antt =====
-- A new address space next to one that has only its root table, and a range of a page that is mapped.
use c_loyha.Base.{ℕ, ◌+◌, ◌≤◌, ◌≡◌, refl, ◌⊎◌, arith, true, false, some}
use c_loyha.Pmm.{Pmm}
use c_loyha.Pmm.Calls.{alloc_pages}
use c_loyha.Vma.{align_down, user_space_end}
use c_loyha.Vmm.{Vmm}
use c_loyha.Vmm.Space.{Space}
use c_loyha.Vmm.Creating.{Created, vmm_create_address_space, vmm_create_address_space-Created}
use c_loyha.Vmm.Ranges.{AllOk, vmm_user_range_ok, vmm_user_range_ok_lem}
use c_loyha.Tests.Tables.{only_root, root_at_one, only_root-Space, with_page}

abbrev kernel_space : Vmm
kernel_space = record only_root { kernel_pml4 = 4096 }

kernel_space-Space : Space kernel_space 1 root_at_one
kernel_space-Space = record {
  tree = Space.tree only_root-Space;
  sound = Space.sound only_root-Space;
  once = Space.once only_root-Space;
  used = Space.used only_root-Space;
  frames_fit = Space.frames_fit only_root-Space;
  buddy = Space.buddy only_root-Space;
}

vmm_create_address_space-Created_example :
    (((vmm_create_address_space kernel_space).0 ≡ 0)
      × ((p : ℕ) (pmm : Pmm) → alloc_pages kernel_space.pmm 0 true false ≡ some (p, pmm) → p ≡ 0))
    ⊎ Created kernel_space (vmm_create_address_space kernel_space)
vmm_create_address_space-Created_example =
    vmm_create_address_space-Created kernel_space 1 root_at_one kernel_space-Space (omega arith)
      refl

vmm_user_range_ok_lem_example :
    (vmm_user_range_ok with_page 4096 0x400010 16 true ≡ true
      → (0x400010 + 16 ≤ user_space_end)
        × AllOk with_page 4096 (align_down 0x400010) (0x400010 + 16) true)
    × (0x400010 + 16 ≤ user_space_end
        → AllOk with_page 4096 (align_down 0x400010) (0x400010 + 16) true
        → vmm_user_range_ok with_page 4096 0x400010 16 true ≡ true)
vmm_user_range_ok_lem_example =
    vmm_user_range_ok_lem with_page 4096 0x400010 16 true (omega arith) (omega arith)
