-- ===== src/Fault/Copy.antt =====
-- A write to a shared page: `fault_page` of kernel/mm/mm.c where the entry is copy-on-write.
use c_loyha.Base.{ℕ, ◌+◌, ◌*◌, ◌/◌, ◌%◌, ◌<◌, ◌≡◌, refl, sym, ap, ◌∙◌, arith, bit_or, max, List}
use c_loyha.Base.{Bool, true, some}
use native.Mathlib.Decide.{ℕ_discrete}
use c_loyha.Base.Bits.{bit_or_step, bit_or-lt}
use c_loyha.Vma.{page_size}
use c_loyha.Vmm.{
  Vmm, word, set_word, pte_present, pte_writable, pte_addr, pte_flags, index, is_user_address,
  vmm_translate,
}
use c_loyha.Vmm.Entries.{bit_or_low}
use c_loyha.Base.{subst, ◌≢◌}
use c_loyha.Pmm.{Pmm, Page}
use c_loyha.Pmm.Pool.{pool_cover}
use c_loyha.Vmm.Tree.{Tree, Places, slot, frame, prefix}
use c_loyha.Vmm.Space.{Space}
use c_loyha.Vmm.Tables.{Grown, DataPage}
use c_loyha.Vmm.Mapping.{
  page_of, path_of_page, index_of_page, read_leaf, Rewritten, translate_entry,
}
use c_loyha.Fault.{own_entry}
use c_loyha.Fault.Entry.{
  UserData, load, Served, Served-around, entry-SameData, load_leaf, load_same,
}
use c_loyha.Fault.Outcome.{FaultDone}

-- The entry of the last owner keeps the page, and may be written.
pub own_entry_lem :
    (e : ℕ)
    → pte_present e ≡ true
    → (frame (own_entry e) ≡ frame e)
      × (pte_present (own_entry e) ≡ true)
      × (pte_writable (pte_flags (own_entry e)) ≡ true)
own_entry_lem e here =
    let x = e / 1024 * 1024 + e % 512 in
    let lo = x % 4096 in
    let parts : x ≡ lo + 4096 * (e / 4096) = omega arith in
    let small : bit_or lo 2 < 4096 = bit_or-lt 12 lo 2 (omega arith) (omega arith) in
    let whole : own_entry e ≡ bit_or lo 2 + 4096 * (e / 4096) =
      ap (λ (t : ℕ). bit_or t 2) parts ∙ bit_or_low lo (e / 4096) 2 (omega arith) (omega arith) in
    let odd : lo % 2 ≡ 1 = ground arith in
    let digit : bit_or lo 2 ≡ bit_or (lo / 2) 1 * 2 + max (lo % 2) 0 = bit_or_step lo 2 in
    let next : bit_or (lo / 2) 1 ≡ bit_or (lo / 2 / 2) 0 * 2 + max (lo / 2 % 2) 1 =
      bit_or_step (lo / 2) 1 in
    let first : own_entry e % 2 ≡ 1 = omega (arith, whole, digit, odd) in
    let second : own_entry e / 2 % 2 ≡ 1 = omega (arith, whole, digit, next) in
    (omega (arith, whole, small), ground (arith, first), ground (arith, second))

-- The address leaves the translation caches.
pub flush-Grown :
    (st : Vmm) (root : ℕ) (place : Places) (flushed : List ℕ)
    → Space st root place
    → Grown st root place (record st { flushed = flushed }) place
flush-Grown st root place flushed space = record {
  space = record {
    tree = space.tree;
    sound = space.sound;
    once = space.once;
    used = space.used;
    frames_fit = space.frames_fit;
    buddy = space.buddy;
  };
  same = λ virt. refl;
  kept = λ q x at. at;
  same_nx = refl;
  intact = λ f is_data. (is_data, λ j less. refl);
  entries = λ q v j at less here. (at, refl);
}

frame_of : (w page : ℕ) → frame w ≡ (pte_addr w + page % page_size) / page_size
frame_of w page = omega arith

-- The page was mapped, and its entry is written over by one to a page that holds the same words.
module _ (st st2 st4 : Vmm) (root : ℕ) (place : Places) (q page w : ℕ) (write : Bool)
    (space : Space st root place) (fits : root < 0x10000000000) (user : UserData st place)
    (low : is_user_address page ≡ true) (at : place q ≡ some (0, prefix 0 page))
    (here : pte_present (word st (slot q (index 0 page))) ≡ true) (present : pte_present w ≡ true)
    (writable : pte_writable (pte_flags w) ≡ true) (before : Grown st root place st2 place)
    (leads : DataPage st2 place (frame w))
    (after : Grown (set_word st2 (slot q (index 0 page)) w) root place st4 place)
    (copied : (j : ℕ)
      → j < 512
      → word st2 (slot (frame w) j) ≡ word st (slot (frame (word st (slot q (index 0 page)))) j))
    (fresh : Page.refcount (Pmm.mem_map st.pmm (frame (word st (slot q (index 0 page))))) ≢ 1
      → 0 < pool_cover st.pmm (frame w)) where
  moved : Served st root place page w st4
  moved = Served-around st st2 st4 root place place q page w fits user before at leads after

  reads_same :
      (a : ℕ)
      → page_of a ≡ page_of page
      → a % 8 ≡ 0
      → load st4 (root * 4096) a ≡ load st (root * 4096) a
  unfolding Rewritten
  reads_same a same aligned =
      let e = word st (slot q (index 0 page)) in
      let j = a % page_size / 8 in
      let less : j < 512 = omega arith in
      let (_, words) =
        entry-SameData st2 st4 root place q page w before.space at after (frame w) leads in
      let there : place q ≡ some (0, prefix 0 a) =
        at ∙ ap (λ (x : ℕ). some (0, x)) (sym (path_of_page a page same)) in
      let said : vmm_translate st (root * 4096) a ≡ read_leaf e a =
        translate_entry st root place q a 0 space fits there
        ∙ ap (λ (i : ℕ). read_leaf (word st (slot q i)) a) (index_of_page a page same) in
      load_leaf st4 (root * 4096) a w aligned present ((Served.rewritten moved).0 a same)
      ∙ ap some (words j less ∙ copied j less)
      ∙ sym (load_leaf st (root * 4096) a e aligned here said)

  pub moved-FaultDone : FaultDone st root place page write true st4
  unfolding Rewritten
  moved-FaultDone =
      let (inside, outside) = Served.rewritten moved in
      record {
        place' = Served.place' moved;
        space = Served.space moved;
        user = Served.user moved;
        same_nx = Served.same_nx moved;
        same_data = Served.same_data moved;
        others = outside;
        kept = λ a below aligned entry. elim (ℕ_discrete (page_of a) (page_of page)) [
          | yes same ↦ reads_same a same aligned
          | no other ↦
              load_same st st4 root place (Served.place' moved) a space fits user
                (Served.same_data moved) below aligned entry (outside a other)
        ];
        zeros = λ done nothing. absurd (nothing (q, at, here));
        served = λ done. (
          pte_addr w + page % page_size,
          pte_flags w,
          inside page refl ∙ rw present refl,
          λ wr. writable,
        );
        copied = λ done q' at' here' cow shared wr. (
          pte_addr w + page % page_size,
          pte_flags w,
          inside page refl ∙ rw present refl,
          subst (λ (f : ℕ). 0 < pool_cover st.pmm f) (frame_of w page)
              (fresh (
                subst
                  (λ (k : ℕ).
                    Page.refcount (Pmm.mem_map st.pmm (frame (word st (slot k (index 0 page)))))
                    ≢ 1)
                  (Tree.unique (Space.tree space) q' q (0, prefix 0 page) at' at) shared)),
        );
        refused = λ no. absurd cc;
      }
