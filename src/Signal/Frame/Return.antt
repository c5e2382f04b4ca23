-- ===== src/Signal/Frame/Return.antt =====
-- `sys_sigreturn` of kernel/proc/signal.c: the handler is over, and the program goes on with the
-- registers that its stack holds, as far as they may be trusted.
use c_loyha.Base.{ℕ, zero, suc, ◌%◌, ◌^◌, bit_and, bit_or, ◌||◌, leb, if◌then◌else◌}
use c_loyha.Base.{none, some, List, [], ◌∷◌}
use c_loyha.Proc.{Process}
use c_loyha.Signal.{clear, unblockable}
use c_loyha.Signal.Frame.{Frame, sigctx_count}
use c_loyha.Uaccess.{UserMem, copy_from_user}

-- The word at place `i` of the copied structure.
abbrev pub word_at : List ℕ → ℕ → ℕ
word_at [] i = 0
word_at (w ∷ ws) zero = w
word_at (w ∷ ws) (suc i) = word_at ws i

-- `user_flags`: CF, PF, AF, ZF, SF, DF and OF.
abbrev pub user_flags : ℕ
user_flags = 0xCD5

-- 0x0000800000000000, the end of the lower canonical half
abbrev pub canonical_end : ℕ
canonical_end = 2 ^ 47

-- FORCE_IRET_VECTOR
abbrev pub force_iret_vector : ℕ
force_iret_vector = 0x81

-- `exits` is `proc_exit_signal(SIGSEGV)`; otherwise the result that goes to RAX, with the process
-- and its registers.
pub data Returned : Type 0 where
  exits : Returned
  resumes : ℕ → Process → Frame → Returned

-- `struct sigctx`: r15 r14 r13 r12 r11 r10 r9 r8 rbp rdi rsi rdx rcx rbx rax rip rflags rsp mask sig
unfoldable pub restore : Process → Frame → List ℕ → Returned
restore p f c =
    if leb canonical_end (word_at c 15) || leb canonical_end (word_at c 17)
    then exits
    else resumes (word_at c 14)
        (record p { sig_blocked = clear (word_at c 18 % 2 ^ 32) unblockable })
        (record f {
          r15 = word_at c 0;
          r14 = word_at c 1;
          r13 = word_at c 2;
          r12 = word_at c 3;
          r11 = word_at c 4;
          r10 = word_at c 5;
          r9 = word_at c 6;
          r8 = word_at c 7;
          rbp = word_at c 8;
          rdi = word_at c 9;
          rsi = word_at c 10;
          rdx = word_at c 11;
          rcx = word_at c 12;
          rbx = word_at c 13;
          rip = word_at c 15;
          rsp = word_at c 17;
          rflags = bit_or (bit_or (bit_and (word_at c 16) user_flags) (2 ^ 9)) (2 ^ 1);
          vector = force_iret_vector;
        })

unfoldable pub sys_sigreturn : Process → Frame → UserMem → Returned
sys_sigreturn p f m = elim (copy_from_user m f.rsp sigctx_count) [
  | none ↦ exits
  | some c ↦ restore p f c
]
