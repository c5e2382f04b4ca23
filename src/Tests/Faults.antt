-- ===== src/Tests/Faults.antt =====
-- Faults in an address space that is empty but for its root table.
use c_loyha.Base.{ℕ, ◌≡◌, refl, ap, inl, arith, true, List, [], ◌∷◌}
use c_loyha.Vma.{Vma}
use c_loyha.Vmm.Tree.{prefix}
use c_loyha.Fault.{fault_page, mm_handle_fault}
use c_loyha.Fault.Entry.{UserData}
use c_loyha.Fault.Shared.{FaultOutcome}
use c_loyha.Fault.Handling.{fault_page-FaultOutcome}
use c_loyha.Fault.Rights.{HandleOutcome, mm_handle_fault-HandleOutcome}
use c_loyha.Tests.Tables.{only_root, root_at_one, is_root, only_root-Space}

only_root-UserData : UserData only_root root_at_one
unfolding UserData
only_root-UserData virt q low at here =
    let level : ◌≡◌ {A = ℕ} 3 0 = ap (λ (x : ℕ × ℕ). x.0) (is_root q (0, prefix 0 virt) at).1 in
    absurd (omega arith)

abbrev one_region : List Vma
one_region = record { start = 0x400000; end = 0x402000; prot = 3; flags = 0 } ∷ []

fault_page-FaultOutcome_example :
    FaultOutcome only_root 1 root_at_one 0x400000 true (fault_page only_root 4096 3 0x400000 true)
fault_page-FaultOutcome_example =
    fault_page-FaultOutcome only_root 1 root_at_one 0x400000 3 true only_root-Space (omega arith)
      only_root-UserData (inl refl) refl (λ h. refl)

mm_handle_fault-HandleOutcome_example :
    HandleOutcome one_region only_root 1 root_at_one 0x400123 2
      (mm_handle_fault one_region only_root 4096 0x400123 2)
mm_handle_fault-HandleOutcome_example =
    mm_handle_fault-HandleOutcome one_region only_root 1 root_at_one 0x400123 2 only_root-Space
      (omega arith) only_root-UserData (inl refl)
