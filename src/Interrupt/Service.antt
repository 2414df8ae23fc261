-- ===== src/Interrupt/Service.antt =====
-- What the service of an external interrupt does to the controller.
-- The handler that serves the number, if one is defined.
use tsukumo_core.Common.{
  ◌==◌, if◌then◌else◌, ==_refl, digit, digit-bit_in, ℕ, ◌/◌, ◌%◌, ◌^◌, ◌<◌, bit_or, ◌≡◌, refl, ◌∙◌,
  ◌≢◌, Bool, true, false, not, ◌&&◌, Option, none, some, [], ◌∷◌, ◌++◌, arith,
}
use tsukumo_core.Interrupt.{
  Machine, out_threshold, out_claim, is_intno, is_enabled, set_enabled, is_some, call_handler,
  external_interrupt,
}
use tsukumo_core.Interrupt.Bits.{set_enabled-is_enabled}

abbrev pub handler_of : ℕ → Machine → Option ℕ
handler_of intno s = if is_intno intno then s.s_handlers intno else none

-- The machine behind the handler, which is called with the threshold at the source's priority.
abbrev pub after_handler : (ℕ → ℕ → Machine → Machine) → ℕ → Option ℕ → Machine → Machine
after_handler body intno none s = s
after_handler body intno (some handler) s =
    body handler intno (out_threshold (s.plic.priority intno) s)

-- From the machine `s`, by way of `h` behind the handler, to `t`.
pub record IsServed (intno : ℕ) (has_handler : Bool) (s h t : Machine) : Type 0 where
  pub threshold_back : t.plic.threshold ≡ s.plic.threshold
  pub completed :
      (w : ℕ) × (t.plic.completions
        ≡ h.plic.completions ++ record { source = intno; enable_word = w } ∷ [])
      × (digit (intno % 32) w ≡ 1)
  pub own_bit : is_enabled intno t ≡ (has_handler && is_enabled intno h)
  pub other_bits : (src : ℕ) → intno ≢ src → is_enabled src t ≡ is_enabled src h
  pub priorities : t.plic.priority ≡ h.plic.priority
  pub handlers : t.s_handlers ≡ h.s_handlers
  pub kernel_same : t.kernel ≡ h.kernel

-- The part of the service behind the handler.
abbrev finish : ℕ → Bool → Machine → Machine
finish intno stays_on r =
    let t = out_claim intno (set_enabled intno true r) in
    if not stays_on then set_enabled intno false t else t

module _ (intno : ℕ) (r : Machine) where
  -- The completion is written between two writes of the enable word.
  out_claim-is_enabled :
      (src : ℕ) (s : Machine) → is_enabled src (out_claim intno s) ≡ is_enabled src s
  unfolding is_enabled
  out_claim-is_enabled src s = refl

  finish-is_enabled :
      (stays_on : Bool) (src : ℕ)
      → is_enabled src (finish intno stays_on r)
        ≡ (if intno == src then stays_on else is_enabled src r)
  finish-is_enabled true src =
      out_claim-is_enabled src (set_enabled intno true r) ∙ set_enabled-is_enabled intno src true r
  finish-is_enabled false src =
      set_enabled-is_enabled intno src false (out_claim intno (set_enabled intno true r))
      ∙ ground (
        arith,
        out_claim-is_enabled src (set_enabled intno true r),
        set_enabled-is_enabled intno src true r,
      )

  finish-completed :
      (stays_on : Bool)
      → (w : ℕ) × ((finish intno stays_on r).plic.completions
          ≡ r.plic.completions ++ record { source = intno; enable_word = w } ∷ [])
        × (digit (intno % 32) w ≡ 1)
  unfolding set_enabled
  finish-completed true = (
    bit_or (r.plic.enable (intno / 32)) (2 ^ (intno % 32)),
    rw (==_refl (intno / 32)) refl,
    ground (arith, digit-bit_in (intno % 32) (intno % 32) (r.plic.enable (intno / 32))),
  )
  finish-completed false = (
    bit_or (r.plic.enable (intno / 32)) (2 ^ (intno % 32)),
    rw (==_refl (intno / 32)) refl,
    ground (arith, digit-bit_in (intno % 32) (intno % 32) (r.plic.enable (intno / 32))),
  )

  -- The rest of the machine is left alone.
  finish-IsServed :
      (has_handler stays_on : Bool) (s : Machine)
      → stays_on ≡ (has_handler && is_enabled intno r)
      → r.plic.threshold ≡ s.plic.threshold
      → IsServed intno has_handler s r (finish intno stays_on r)
  unfolding set_enabled
  finish-IsServed has_handler true s e h = record {
    threshold_back = h;
    completed = finish-completed true;
    own_bit = finish-is_enabled true intno ∙ ground (arith, e);
    other_bits = λ src n. finish-is_enabled true src ∙ ground (arith, n);
    priorities = refl;
    handlers = refl;
    kernel_same = refl;
  }
  finish-IsServed has_handler false s e h = record {
    threshold_back = h;
    completed = finish-completed false;
    own_bit = finish-is_enabled false intno ∙ ground (arith, e);
    other_bits = λ src n. finish-is_enabled false src ∙ ground (arith, n);
    priorities = refl;
    handlers = refl;
    kernel_same = refl;
  }

-- Behind a handler the threshold is written; nothing else differs.
IsServed-threshold :
    (intno v : ℕ) (b : Bool) (s h t : Machine)
    → IsServed intno b s (out_threshold v h) t
    → IsServed intno b s h t
unfolding is_enabled
IsServed-threshold intno v b s h t i = record {
  threshold_back = i.threshold_back;
  completed = i.completed;
  own_bit = i.own_bit;
  other_bits = i.other_bits;
  priorities = i.priorities;
  handlers = i.handlers;
  kernel_same = i.kernel_same;
}

serve-IsServed :
    (body : ℕ → ℕ → Machine → Machine) (intno : ℕ) (handler : Option ℕ) (s : Machine)
    → IsServed intno (is_some handler) s (after_handler body intno handler s) (
        finish intno
          (is_some handler && is_enabled intno (call_handler body intno handler s))
          (call_handler body intno handler s))
unfolding call_handler
serve-IsServed body intno none s = finish-IsServed intno s false false s refl refl
serve-IsServed body intno (some a) s =
    let h = body a intno (out_threshold (s.plic.priority intno) s) in
    let r = out_threshold s.plic.threshold h in
    IsServed-threshold intno s.plic.threshold true s h (finish intno (is_enabled intno r) r)
      (finish-IsServed intno r true (is_enabled intno r) s refl refl)

-- For a number other than 0 from the claim register, whatever the handler does,
-- tkmc_external_interrupt puts the threshold back, ends with one completion of the number, written
-- while its enable bit is set, leaves the bit set exactly if a handler is defined and left it set,
-- and leaves the other enable bits, the priorities, the handlers and the kernel as the handler
-- left them.
pub external_interrupt-IsServed :
    (body : ℕ → ℕ → Machine → Machine) (intno : ℕ) (s : Machine)
    → 0 < intno
    → IsServed intno
        (is_some (handler_of intno s))
        s
        (after_handler body intno (handler_of intno s) s)
        (external_interrupt body intno s)
unfolding external_interrupt
external_interrupt-IsServed body intno s h =
    let e : (intno == 0) ≡ false = ground arith in
    rw e (serve-IsServed body intno (handler_of intno s) s)
