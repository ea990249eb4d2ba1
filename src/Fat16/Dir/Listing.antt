-- ===== src/Fat16/Dir/Listing.antt =====
-- The listing of a directory, in one call or in several.
use doomsday_kernel_modules.Base.{
  ℕ, ◌+◌, ◌-◌, ◌≡◌, ◌≤◌, refl, ap, sym, ◌∙◌, Bool, true, false, List, [], ◌∷◌, ◌++◌, ltb, ◌==◌,
  if◌then◌else◌, arith, append_nil, append_snoc,
}
use doomsday_kernel_modules.Fat16.Layout.{
  fat16_de_is_end, fat16_de_is_skip, fat16_de_is_dir, fat16_make_ino,
}
use doomsday_kernel_modules.Fat16.Cluster.{SbInfo}
use doomsday_kernel_modules.Fat16.Dir.{
  Walk, walked, stopped, failed_with, running, DirContext, Emitted, entry_name, iterate_cb,
}
use doomsday_kernel_modules.Fat16.Dir.Flat.{Located, visit}
use doomsday_kernel_modules.Fat16.Dir.Directory.{Numbered}

abbrev pub emitted : SbInfo → Located → Emitted
emitted sbi e = record {
  name = entry_name e.de;
  ino = fat16_make_ino sbi.bytes_per_sector e.sector e.index;
  is_dir = fat16_de_is_dir e.de;
}

-- What a listing gives for the entries before the end marker that are not skipped.
abbrev pub listed : SbInfo → List Located → List Emitted
listed sbi [] = []
listed sbi (e ∷ es) =
    let rest = listed sbi es in
    if fat16_de_is_end e.de
    then []
    else (if fat16_de_is_skip e.de then rest else (emitted sbi e ∷ rest))

-- The walk goes to its end, with these entries taken.
abbrev pub Takes : List Emitted → Walk DirContext → Type 0
Takes entries (walked ctx) = ctx.taken ≡ entries
Takes entries (stopped ret ctx) = ⊥
Takes entries (failed_with e ctx) = ⊥
Takes entries (running ctx) = ⊥

abbrev pub take_all : List Emitted → Emitted → Bool
take_all taken entry = true

module _ (sbi : SbInfo) where
  -- One entry of a listing with a kernel that takes all, by what the tests of the entry give.
  emit_all_step :
      (ended skip : Bool) (entry : Emitted) (rest : List Emitted) (ctx : DirContext)
      (f : DirContext → Walk DirContext)
      → ((ctx : DirContext) → Takes (ctx.taken ++ rest) (f ctx))
      → Takes (ctx.taken ++ (if ended then [] else (if skip then rest else (entry ∷ rest)))) (
          let (ret, s) : ℕ × DirContext =
            if skip
            then (0, record ctx { pos = ctx.pos + 1 })
            else (0, record { pos = ctx.pos + 1; taken = ctx.taken ++ (entry ∷ []) }) in
          if ended then walked ctx else (if ret == 0 then f s else stopped ret s))
  emit_all_step true skip entry rest ctx f next = sym (append_nil ctx.taken)
  emit_all_step false true entry rest ctx f next = next (record ctx { pos = ctx.pos + 1 })
  emit_all_step false false entry rest ctx f next =
      let after = next (record { pos = ctx.pos + 1; taken = ctx.taken ++ (entry ∷ []) }) in
      rw (sym (append_snoc ctx.taken entry rest)) at after

  -- A kernel that takes all gets all from the first entry that is asked for on.
  visit_all-Takes :
      (es : List Located) (n start : ℕ) (ctx : DirContext)
      → Numbered n es
      → start ≤ n
      → Takes (ctx.taken ++ listed sbi es) (visit (iterate_cb take_all sbi start) es ctx)
  unfolding iterate_cb
  visit_all-Takes [] n start ctx numbered behind = sym (append_nil ctx.taken)
  visit_all-Takes (e ∷ es) n start ctx (is_n, numbered) behind =
      let not_before : ltb e.number start ≡ false = rw is_n (ground arith) in
      rw (iterate_cb, not_before)
        (emit_all_step (fat16_de_is_end e.de) (fat16_de_is_skip e.de) (emitted sbi e)
          (listed sbi es) ctx (visit (iterate_cb take_all sbi start) es)
          (λ ctx'. visit_all-Takes es (n + 1) start ctx' numbered (omega arith)))

  -- A call that ends at the position `low` or behind it, from where a call with a kernel that takes all gives
  -- the rest of `all`.
  abbrev pub Resumed : List Located → ℕ → List Emitted → Walk DirContext → Type 0
  Resumed es low all (walked ctx) =
      (low ≤ ctx.pos) × Takes all (visit (iterate_cb take_all sbi (ctx.pos - 2)) es ctx)
  Resumed es low all (stopped ret ctx) =
      (low ≤ ctx.pos) × Takes all (visit (iterate_cb take_all sbi (ctx.pos - 2)) es ctx)
  Resumed es low all (failed_with e ctx) = ⊥
  Resumed es low all (running ctx) = ⊥

  -- An entry in front that the first call has passed.
  Resumed-cons :
      (e : Located) (es : List Located) (all : List Emitted) (w : Walk DirContext)
      → fat16_de_is_end e.de ≡ false
      → Resumed es (e.number + 3) all w
      → Resumed (e ∷ es) (e.number + 2) all w
  unfolding iterate_cb
  Resumed-cons e es all (walked ctx) live (low, takes) =
      let before : ltb e.number (ctx.pos - 2) ≡ true = ground arith in
      (omega arith, rw (iterate_cb, live, before) takes)
  Resumed-cons e es all (stopped ret ctx) live (low, takes) =
      let before : ltb e.number (ctx.pos - 2) ≡ true = ground arith in
      (omega arith, rw (iterate_cb, live, before) takes)
  Resumed-cons e es all (failed_with _ _) live resumed = elim resumed [ ]
  Resumed-cons e es all (running _) live resumed = elim resumed [ ]

  -- One entry of the first call, by what the tests of it give.
  emit_step :
      (e : Located) (es : List Located) (ctx : DirContext) (f : DirContext → Walk DirContext)
      (ended skip accept : Bool)
      → fat16_de_is_end e.de ≡ ended
      → ctx.pos ≡ e.number + 2
      → Takes
          (ctx.taken
            ++ (if ended
                then []
                else (if skip then listed sbi es else (emitted sbi e ∷ listed sbi es))))
          (visit (iterate_cb take_all sbi (ctx.pos - 2)) (e ∷ es) ctx)
      → ((ctx' : DirContext)
          → ctx'.pos ≡ e.number + 3
          → Resumed es (e.number + 3) (ctx'.taken ++ listed sbi es) (f ctx'))
      → Resumed
          (e ∷ es)
          (e.number + 2)
          (ctx.taken
            ++ (if ended
                then []
                else (if skip then listed sbi es else (emitted sbi e ∷ listed sbi es))))
          (let (ret, s) : ℕ × DirContext =
              if skip
              then (0, record ctx { pos = ctx.pos + 1 })
              else (if accept
                  then (0, record { pos = ctx.pos + 1; taken = ctx.taken ++ (emitted sbi e ∷ []) })
                  else (1, ctx)) in
            if ended then walked ctx else (if ret == 0 then f s else stopped ret s))
  emit_step e es ctx f true skip accept live at again next = (omega arith, again)
  emit_step e es ctx f false true accept live at again next =
      Resumed-cons e es _ _ live (next (record ctx { pos = ctx.pos + 1 }) (omega arith))
  emit_step e es ctx f false false true live at again next =
      let ctx' : DirContext = record {
        pos = ctx.pos + 1;
        taken = ctx.taken ++ (emitted sbi e ∷ []);
      } in
      let after = next ctx' (omega arith) in
      Resumed-cons e es _ _ live
        (rw (sym (append_snoc ctx.taken (emitted sbi e) (listed sbi es))) at after)
  emit_step e es ctx f false false false live at again next = (omega arith, again)

  -- A listing of entries with numbers from `n` on, from the position of the first of them.
  pub visit-Resumed :
      (dir_emit : List Emitted → Emitted → Bool) (es : List Located) (n start : ℕ)
      (ctx : DirContext)
      → Numbered n es
      → start ≤ n
      → ctx.pos ≡ n + 2
      → Resumed es
          (n + 2)
          (ctx.taken ++ listed sbi es)
          (visit (iterate_cb dir_emit sbi start) es ctx)
  unfolding iterate_cb
  visit-Resumed dir_emit [] n start ctx numbered behind at =
      (omega arith, sym (append_nil ctx.taken))
  visit-Resumed dir_emit (e ∷ es) n start ctx (is_n, numbered) behind at =
      let not_before : ltb e.number start ≡ false = rw is_n (ground arith) in
      rw (sym is_n, iterate_cb, not_before)
        (emit_step e es ctx (visit (iterate_cb dir_emit sbi start) es) (fat16_de_is_end e.de)
          (fat16_de_is_skip e.de) (dir_emit ctx.taken (emitted sbi e)) refl
          (at ∙ ap (λ k. k + 2) (sym is_n))
          (visit_all-Takes (e ∷ es) n (ctx.pos - 2) ctx (is_n, numbered) (omega arith))
          (λ ctx' at'.
            let low : n + 1 + 2 ≡ e.number + 3 = omega arith in
            let resumed =
              visit-Resumed dir_emit es (n + 1) start ctx' numbered (omega arith) (omega arith) in
            rw low at resumed))
