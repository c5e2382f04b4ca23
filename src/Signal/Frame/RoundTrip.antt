-- ===== src/Signal/Frame/RoundTrip.antt =====
-- Entering a handler and returning from it at once.
use c_loyha.Base.{ℕ, ◌+◌, ◌*◌, ◌%◌, ◌<◌, ◌≤◌, ◌^◌, bit_and, bit_or, ◌≡◌, refl, ap, ◌∙◌}
use c_loyha.Base.{
  Bool, true, false, ◌||◌, ◌==◌, leb, if◌then◌else◌, Option, none, some, List, arith,
}
use c_loyha.Base.{◌∷◌, length}
use c_loyha.Abi.{sa_restorer}
use c_loyha.Proc.{Process, Sigaction}
use c_loyha.Signal.{clear, unblockable}
use c_loyha.Signal.Frame.{Frame, frame_address, sigframe_words, sigctx_words, setup_frame}
use c_loyha.Signal.Frame.{enter_handler, block_for_handler, sigctx_count}
use c_loyha.Signal.Frame.Return.{resumes, restore, sys_sigreturn, canonical_end}
use c_loyha.Signal.Frame.Return.{user_flags, force_iret_vector}
use c_loyha.Uaccess.{UserMem, user_ok, copy_to_user, copy_from_user, store, load, load-store}
use c_loyha.Uaccess.{word-copy_to_user, copy_from_user-load}

-- What `setup_frame` has done when it succeeds.
pub record Entered (p : Process) (f : Frame) (m : UserMem) (sig : ℕ) (act : Sigaction)
    (p' : Process) (f' : Frame) (m' : UserMem) : Type 0 where
  pub process : p' ≡ block_for_handler p sig act
  pub frame : f' ≡ enter_handler f (frame_address f.rsp) sig act
  pub memory :
      copy_to_user m (frame_address f.rsp) (sigframe_words act f p.sig_blocked sig) ≡ some m'

inversion :
    {A B C : Type 0} (g : Bool) (o : Option C) (a a' : A) (b b' : B) (c' : C)
    → let copied : Option (A × B × C) = elim o [ none ↦ none | some c ↦ some (a, b, c) ] in
      (if g then none else copied) ≡ some (a', b', c') → (a' ≡ a) × (b' ≡ b) × (o ≡ some c')
inversion true o a a' b b' c' h = cc
inversion false none a a' b b' c' h = cc
inversion false (some c) a a' b b' c' h = ground arith

pub setup_frame-Entered :
    (p : Process) (f : Frame) (m : UserMem) (sig : ℕ) (act : Sigaction) {p' : Process} {f' : Frame}
    {m' : UserMem}
    → setup_frame p f m sig act ≡ some (p', f', m')
    → Entered p f m sig act p' f' m'
unfolding setup_frame
setup_frame-Entered p f m sig act {p'} {f'} {m'} h =
    let (same_process, same_frame, copied) =
      inversion (bit_and act.sa_flags sa_restorer == 0 || act.sa_restorer == 0)
        (copy_to_user m (frame_address f.rsp) (sigframe_words act f p.sig_blocked sig))
        (block_for_handler p sig act) p' (enter_handler f (frame_address f.rsp) sig act) f' m' h in
    record { process = same_process; frame = same_frame; memory = copied }

-- The handler is entered as by a call: below the red zone of 128 bytes and the saved registers, with
-- the stack pointer 8 below a multiple of 16.
pub frame_address_lem :
    (rsp : ℕ)
    → 320 ≤ rsp
    → rsp < 2 ^ 64
    → (frame_address rsp % 16 ≡ 8)
      × (frame_address rsp + 168 + 128 ≤ rsp)
      × (rsp ≤ frame_address rsp + 168 + 128 + 23)
unfolding frame_address
frame_address_lem rsp h fits = omega arith

-- The registers of `g` are those of `f`, but for the flags that a program may not set.
pub record Restored (f : Frame) (rax : ℕ) (g : Frame) : Type 0 where
  pub callee_saved :
      (g.r15 ≡ f.r15)
      × (g.r14 ≡ f.r14)
      × (g.r13 ≡ f.r13)
      × (g.r12 ≡ f.r12)
      × (g.rbp ≡ f.rbp)
      × (g.rbx ≡ f.rbx)
  pub scratch :
      (g.r11 ≡ f.r11)
      × (g.r10 ≡ f.r10)
      × (g.r9 ≡ f.r9)
      × (g.r8 ≡ f.r8)
      × (g.rdi ≡ f.rdi)
      × (g.rsi ≡ f.rsi)
      × (g.rdx ≡ f.rdx)
      × (g.rcx ≡ f.rcx)
      × (rax ≡ f.rax)
  pub control : (g.rip ≡ f.rip) × (g.rsp ≡ f.rsp)
  pub flags : g.rflags ≡ bit_or (bit_or (bit_and f.rflags user_flags) (2 ^ 9)) (2 ^ 1)

load_tail :
    (mem : ℕ → ℕ) (dst : ℕ) (w : ℕ) (ws : List ℕ)
    → load (store mem dst (w ∷ ws)) (dst + 8) (length ws) ≡ ws
unfolding store
load_tail mem dst w ws = load-store (λ a. if a == dst then w else mem a) (dst + 8) ws

-- `sigreturn` reads the context that `setup_frame` wrote.
context_read :
    {p : Process} {f : Frame} {m : UserMem} {sig : ℕ} {act : Sigaction} {p' : Process} {f' : Frame}
    {m' : UserMem} (g : Frame)
    → Entered p f m sig act p' f' m'
    → g.rsp ≡ f'.rsp + 8
    → user_ok m' g.rsp (8 * sigctx_count) false ≡ true
    → copy_from_user m' g.rsp sigctx_count ≡ some (sigctx_words f p.sig_blocked sig)
unfolding enter_handler
context_read {p} {f} {m} {sig} {act} {p'} {f'} {m'} g entered popped readable =
    rw
      (
        copy_from_user-load m' g.rsp sigctx_count readable,
        word-copy_to_user m sp (sigframe_words act f p.sig_blocked sig) entered.memory,
        top,
        load_tail m.word sp act.sa_restorer (sigctx_words f p.sig_blocked sig),
      )
      refl
  where
    sp : ℕ
    sp = frame_address f.rsp

    top : g.rsp ≡ sp + 8
    top = popped ∙ ap (λ (h : Frame). h.rsp + 8) entered.frame

-- The registers after the context of `f` was put into `g`.
abbrev put_back : Frame → Frame → Frame
put_back f g = record g {
  r15 = f.r15;
  r14 = f.r14;
  r13 = f.r13;
  r12 = f.r12;
  r11 = f.r11;
  r10 = f.r10;
  r9 = f.r9;
  r8 = f.r8;
  rbp = f.rbp;
  rdi = f.rdi;
  rsi = f.rsi;
  rdx = f.rdx;
  rcx = f.rcx;
  rbx = f.rbx;
  rip = f.rip;
  rsp = f.rsp;
  rflags = bit_or (bit_or (bit_and f.rflags user_flags) (2 ^ 9)) (2 ^ 1);
  vector = force_iret_vector;
}

sys_sigreturn_read :
    (p : Process) (g : Frame) (m : UserMem) (c : List ℕ)
    → copy_from_user m g.rsp sigctx_count ≡ some c
    → sys_sigreturn p g m ≡ restore p g c
unfolding sys_sigreturn
sys_sigreturn_read p g m c read = rw (read, sys_sigreturn) refl

unmask : Process → ℕ → Process
unmask p mask = record p { sig_blocked = clear (mask % 2 ^ 32) unblockable }

restore_lem :
    (p : Process) (f g : Frame) (mask sig : ℕ)
    → f.rip < canonical_end
    → f.rsp < canonical_end
    → restore p g (sigctx_words f mask sig) ≡ resumes f.rax (unmask p mask) (put_back f g)
unfolding restore unmask
restore_lem p f g mask sig rip_ok rsp_ok = rw (below f.rip rip_ok, below f.rsp rsp_ok) refl
  where
    below : (a : ℕ) → a < canonical_end → leb canonical_end a ≡ false
    below a h = ground arith

-- Delivering a signal and returning from the handler at once (`ret` takes the return address off the
-- stack, and `sigreturn` is called) restores every register, RAX included, the flags that belong to
-- the program, and the signal mask without SIGKILL and SIGSTOP; it needs that the frame can be read
-- back and that the program was interrupted at canonical addresses.
pub sigreturn-setup_frame :
    (p : Process) (f : Frame) (m : UserMem) (sig : ℕ) (act : Sigaction) {p' : Process} {f' : Frame}
    {m' : UserMem} (g : Frame)
    → setup_frame p f m sig act ≡ some (p', f', m')
    → f.rip < canonical_end
    → f.rsp < canonical_end
    → p.sig_blocked < 2 ^ 32
    → g.rsp ≡ f'.rsp + 8
    → user_ok m' g.rsp (8 * sigctx_count) false ≡ true
    → (rax : ℕ) × (q : Process) × (f'' : Frame) × (sys_sigreturn p' g m' ≡ resumes rax q f'')
      × Restored f rax f''
      × (q.sig_blocked ≡ clear p.sig_blocked unblockable)
unfolding unmask
sigreturn-setup_frame p f m sig act {p'} {f'} {m'} g set rip_ok rsp_ok mask_ok popped readable = (
  f.rax,
  unmask p' p.sig_blocked,
  put_back f g,
  sys_sigreturn_read p' g m' (sigctx_words f p.sig_blocked sig)
        (context_read g (setup_frame-Entered p f m sig act set) popped readable)
      ∙ restore_lem p' f g p.sig_blocked sig rip_ok rsp_ok,
  record {
    callee_saved = (refl, refl, refl, refl, refl, refl);
    scratch = (refl, refl, refl, refl, refl, refl, refl, refl, refl);
    control = (refl, refl);
    flags = refl;
  },
  ap (λ (k : ℕ). clear k unblockable) (omega arith),
)
