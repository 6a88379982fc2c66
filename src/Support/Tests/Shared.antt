-- ===== src/Support/Tests/Shared.antt =====
-- The eviction of a page of the shared segment by `UserTLBHandler` of kaya/phase3/pager.c at a concrete state.
use skara.Base.{ℕ, ◌≡◌, refl, sym, ap, [], ◌∷◌, subst, false, inl, inr, arith}
use skara.Base.Word.{has_bit}
use skara.Machine.{stop, loads}
use skara.Support.{Support, backing_store, seek_command, get_cylinder_num}
use skara.Support.Pager.{user_tlb_handler, valid_on, get_frame_addr}
use skara.Support.Entries.{lo_at}
use skara.Support.Eviction.{IsPool}
use skara.Support.Tape.{commands_of}
use skara.Support.Misplaced.{Misplaces, user_tlb_handler-Misplaces}
use skara.Support.Tests.{layout, blank, holding, holding-IsPool, holding-lo}

-- Page 5 of the shared segment is in frame 1, and page 7 of it is missing.
abbrev sharing : Support
sharing = record (holding 3 0x20009400) { old_areas = λ _ _. record blank { s_asid = 0xC0007040 } }

sharing-IsPool : IsPool layout 0x20009400 sharing.tables sharing.frames
unfolding get_frame_addr
sharing-IsPool =
    holding-IsPool 3 0x20009400 (record { paged = inr refl; listed = omega arith })
      (record { valid = refl; frame = refl })
      λ t q p n. elim p.paged [
        | inl e ↦
            subst (λ (x : ℕ). has_bit (lo_at layout sharing.tables x q) valid_on ≡ false) (sym e)
              refl
        | inr e ↦
            subst (λ (x : ℕ). has_bit (lo_at layout sharing.tables x q) valid_on ≡ false) (sym e)
              (ap (λ (x : ℕ). has_bit x valid_on) (holding-lo q (λ d. n (e, d))))
      ]

user_tlb_handler-Misplaces_example :
    (w : Support) × (write : ℕ) × (read : ℕ) × (user_tlb_handler sharing
      ≡ stop (loads (sharing.old_areas 0 0)) w)
    × (commands_of backing_store w.log
        ≡ read
          ∷ seek_command (get_cylinder_num 7)
          ∷ write
          ∷ seek_command (get_cylinder_num 5)
          ∷ commands_of backing_store [])
    × Misplaces write read
user_tlb_handler-Misplaces_example =
    user_tlb_handler-Misplaces sharing 7 5 (omega arith) sharing-IsPool
      (record {
        who = refl;
        why = inl refl;
        faulting_segment = refl;
        faulting_page = refl;
        is_page = record { paged = inr refl; listed = omega arith };
        missing = refl;
        looked_up = λ e. refl;
      })
      (record { asid = refl; seg_num = refl; page_num = refl })
