-- ===== src/Interrupt/Calls.antt =====
-- The calls of kernel/intctl.c: tkmc_init_intctl, tk_def_int, EnableInt and DisableInt.
use tsukumo_core.Common.{
  ltb, leb, ◌==◌, if◌then◌else◌, Option-cases, if_cases, pos, ltb_ℤ, update, bit_and-zero, ℕ, zero,
  suc, ◌-◌, ◌/◌, ◌≤◌, ◌<◌, ◌≡◌, refl, ap, ◌∙◌, ◌≢◌, ◌⊎◌, inl, inr, Bool, true, false, not, ◌&&◌,
  ◌||◌, Option, none, some, arith,
}
use tsukumo_core.Context.{di, ei, is_di, in_isr}
use tsukumo_core.Interrupt.{
  cfn_max_intno, plic_source_count, plic_max_priority, ta_hlng, Machine, Tdint, set_kernel,
  is_intno, is_enabled, set_enabled, clear_handlers, clear_priorities, clear_enables, init_intctl,
  set_handler, def_packet, def_int, tk_def_int, enable_int, disable_int,
}
use tsukumo_core.Interrupt.Bits.{set_enabled-is_enabled, is_enabled-enable}
use tsukumo_core.Kernel.{Er, e_ok, Kernel}

abbrev pub handler_in : Option Tdint → Option ℕ
handler_in none = none
handler_in (some pk) = pk.inthdr

-- A packet is taken or refused, and what is refused has changed nothing.
abbrev pub IsDecided : ℕ → Option Tdint → Machine → Er × Machine → Type 0
IsDecided intno pk s r =
    (r.0 ≡ e_ok × (1 ≤ intno) × (intno < 32) × (r.1 ≡ set_handler intno (handler_in pk) s))
    ⊎ (r.0 ≢ e_ok × (r.1 ≡ s))

-- EI after DI.
restored : (b : Bool) → (if b then true else false) ≡ b
restored true = refl
restored false = refl

ei-di : (k : Kernel) → ei k.mie (di k) ≡ k
ei-di k = ap (λ (b : Bool). record k { mie = b }) (restored k.mie)

-- The interrupt state is set back around a change of the handlers.
abbrev leave : Bool → Machine → Machine
leave intsts r = set_kernel (ei intsts r.kernel) r

abbrev enter : Machine → Machine
enter s = set_kernel (di s.kernel) s

leave-enter : (s : Machine) → leave s.kernel.mie (enter s) ≡ s
leave-enter s = ap (λ (k : Kernel). set_kernel k s) (ei-di s.kernel)

def_packet-IsDecided :
    (intno : ℕ) (pk : Option Tdint) (s : Machine)
    → 1 ≤ intno
    → intno < 32
    → IsDecided intno pk s (def_packet intno pk s)
unfolding def_packet
def_packet-IsDecided intno none s h i = inl (refl, h, i, refl)
def_packet-IsDecided intno (some pk) s h i =
    if_cases (IsDecided intno (some pk) s) (not (pk.intatr == ta_hlng)) (λ t. inr (cc, refl))
      (λ t. elim (Option-cases pk.inthdr) [
        | inl e ↦ rw e (inr (cc, refl))
        | inr e ↦ let (a, q) = e in rw q (inl (refl, h, i, refl))
      ])

def_int-IsDecided :
    (intsts : Bool) (intno : ℕ) (pk : Option Tdint) (s : Machine)
    → IsDecided intno pk s (def_int intsts intno pk s)
unfolding def_int is_intno
def_int-IsDecided intsts intno pk s =
    if_cases (IsDecided intno pk s) (is_di intsts || in_isr s.kernel) (λ t. inr (cc, refl))
      (λ t.
        if_cases (IsDecided intno pk s) (not (is_intno intno)) (λ u. inr (cc, refl))
          (λ u. def_packet-IsDecided intno pk s (ground arith) (ground arith)))

leave-IsDecided :
    (intno : ℕ) (pk : Option Tdint) (s : Machine) (r : Er × Machine)
    → IsDecided intno pk (enter s) r
    → IsDecided intno pk s (r.0, leave s.kernel.mie r.1)
leave-IsDecided intno pk s r (inl (e, h, i, f)) =
    inl
      (e, h, i, ap (leave s.kernel.mie) f ∙ ap (set_handler intno (handler_in pk)) (leave-enter s))
leave-IsDecided intno pk s r (inr (e, f)) = inr (e, ap (leave s.kernel.mie) f ∙ leave-enter s)

-- tk_def_int returns E_OK, has a number from 1 to 31 and changes the handler of this number alone,
-- to the packet's or to none without a packet; or it returns an error and changes nothing.
pub tk_def_int-IsDecided :
    (intno : ℕ) (pk : Option Tdint) (s : Machine) → IsDecided intno pk s (tk_def_int intno pk s)
unfolding tk_def_int
tk_def_int-IsDecided intno pk s =
    leave-IsDecided intno pk s (def_int s.kernel.mie intno pk (enter s))
      (def_int-IsDecided s.kernel.mie intno pk (enter s))

-- What EnableInt and DisableInt leave as it was.
pub record IsSwitched (intno : ℕ) (is_on : Bool) (s t : Machine) : Type 0 where
  pub bits : (src : ℕ) → is_enabled src t ≡ (if intno == src then is_on else is_enabled src s)
  pub threshold_same : t.plic.threshold ≡ s.plic.threshold
  pub completions_same : t.plic.completions ≡ s.plic.completions
  pub handlers_same : t.s_handlers ≡ s.s_handlers
  pub kernel_same : t.kernel ≡ s.kernel

-- A write to the enable word of a source, of a machine that differs in its priorities only.
set_enabled-IsSwitched :
    (intno : ℕ) (is_on : Bool) (priorities : ℕ → ℕ) (s : Machine)
    → IsSwitched intno is_on s (
        leave s.kernel.mie (
          set_enabled intno is_on
            (record (enter s) { plic = record s.plic { priority = priorities } })))
unfolding set_enabled
set_enabled-IsSwitched intno is_on priorities s =
    let r = record (enter s) { plic = record s.plic { priority = priorities } } in
    let t = set_enabled intno is_on r in
    record {
      bits = λ src.
          is_enabled-enable src (leave s.kernel.mie t) t refl
          ∙ set_enabled-is_enabled intno src is_on r
          ∙ ap (λ (b : Bool). if intno == src then is_on else b) (is_enabled-enable src r s refl);
      threshold_same = refl;
      completions_same = refl;
      handlers_same = refl;
      kernel_same = ei-di s.kernel;
    }

-- For a number from 1 to 31 and a level from 1 to 7, EnableInt sets the enable bit of this source
-- and its priority, and leaves the bits and the priorities of the others, the threshold, the
-- completions, the handlers and the kernel as they were.
pub enable_int-IsSwitched :
    (intno level : ℕ) (s : Machine)
    → 1 ≤ intno
    → intno < 32
    → 1 ≤ level
    → level ≤ 7
    → IsSwitched intno true s (enable_int intno (pos level) s)
      × ((src : ℕ)
          → (enable_int intno (pos level) s).plic.priority src
            ≡ (if intno == src then level else s.plic.priority src))
unfolding enable_int is_intno set_enabled
enable_int-IsSwitched intno level s h i j k =
    let e : (not (leb 1 intno && ltb intno cfn_max_intno)
          || (ltb_ℤ (pos level) (pos 1) || ltb_ℤ (pos plic_max_priority) (pos level)))
        ≡ false =
      ground arith in
    rw e (set_enabled-IsSwitched intno true (update s.plic.priority intno level) s, λ src. refl)

-- For a number from 1 to 31, DisableInt clears the enable bit of this source, and leaves the bits
-- of the others, all priorities, the threshold, the completions, the handlers and the kernel as
-- they were.
pub disable_int-IsSwitched :
    (intno : ℕ) (s : Machine)
    → 1 ≤ intno
    → intno < 32
    → IsSwitched intno false s (disable_int intno s)
      × ((disable_int intno s).plic.priority ≡ s.plic.priority)
unfolding disable_int is_intno set_enabled
disable_int-IsSwitched intno s h i =
    let e : not (leb 1 intno && ltb intno cfn_max_intno) ≡ false = ground arith in
    rw e (set_enabled-IsSwitched intno false s.plic.priority s, refl)

-- The loops of tkmc_init_intctl.
clear_handlers-none : (n i : ℕ) (s : Machine) → i < n → (clear_handlers n s).s_handlers i ≡ none
unfolding clear_handlers
clear_handlers-none zero i s h = absurd (omega arith)
clear_handlers-none (suc n) i s h = ground (arith, clear_handlers-none n i s)

clear_priorities-zero :
    (n i : ℕ) (s : Machine) → 1 ≤ i → i ≤ n → (clear_priorities n s).plic.priority i ≡ 0
unfolding clear_priorities
clear_priorities-zero zero i s h j = absurd (omega arith)
clear_priorities-zero (suc n) i s h j = ground (arith, clear_priorities-zero n i s h)

clear_priorities-handlers : (n : ℕ) (s : Machine) → (clear_priorities n s).s_handlers ≡ s.s_handlers
unfolding clear_priorities
clear_priorities-handlers zero s = refl
clear_priorities-handlers (suc n) s = clear_priorities-handlers n s

clear_enables-handlers : (n : ℕ) (s : Machine) → (clear_enables n s).s_handlers ≡ s.s_handlers
unfolding clear_enables
clear_enables-handlers zero s = refl
clear_enables-handlers (suc n) s = clear_enables-handlers n s

clear_enables-priority : (n : ℕ) (s : Machine) → (clear_enables n s).plic.priority ≡ s.plic.priority
unfolding clear_enables
clear_enables-priority zero s = refl
clear_enables-priority (suc n) s = clear_enables-priority n s

clear_enables-zero : (n i : ℕ) (s : Machine) → i < n → (clear_enables n s).plic.enable i ≡ 0
unfolding clear_enables
clear_enables-zero zero i s h = absurd (omega arith)
clear_enables-zero (suc n) i s h = ground (arith, clear_enables-zero n i s)

-- No source can raise an interrupt, and no handler is defined.
pub record IsQuiet (t : Machine) : Type 0 where
  pub disabled : (src : ℕ) → src < 96 → is_enabled src t ≡ false
  pub never_raised : (src : ℕ) → 1 ≤ src → src < 96 → t.plic.priority src ≡ 0
  pub undefined : (intno : ℕ) → intno < 32 → t.s_handlers intno ≡ none
  pub threshold_zero : t.plic.threshold ≡ 0

-- After tkmc_init_intctl no source below 96 is enabled, each from 1 on has priority 0, no number
-- below 32 has a handler, and the threshold is 0.
pub init_intctl-IsQuiet : (s : Machine) → IsQuiet (init_intctl s)
unfolding init_intctl is_enabled
init_intctl-IsQuiet s =
    let a = clear_handlers cfn_max_intno s in
    let b = clear_priorities (plic_source_count - 1) a in
    record {
      disabled = λ src h.
          rw (clear_enables-zero 3 (src / 32) b (omega arith)) (ground (arith, bit_and-zero 1));
      never_raised = λ src h i.
          rw (clear_enables-priority 3 b) (clear_priorities-zero 95 src a h (omega arith));
      undefined = λ i h.
          rw (clear_enables-handlers 3 b, clear_priorities-handlers 95 a)
            (clear_handlers-none 32 i s h);
      threshold_zero = refl;
    }
