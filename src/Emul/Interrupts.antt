-- ===== src/Emul/Interrupts.antt =====
-- That a handler of an interrupt gives the registers back.
use irid.Base.{
  ◌+◌, ◌++◌, ap, Option, if◌then◌else◌, ℕ, ◌≡◌, ◌≢◌, refl, Bool, true, false, List, [], ◌∷◌, none,
  some, ok, stop, arith, ◌∙◌, ◌==◌,
}
use irid.Base.Results.{◌>>=◌, >>=-eq-ok}
use irid.Emul.Cpu.{Register, CpuState, CpuFault, Running, u16, r_store}
use irid.Emul.Registers.{ip}
use irid.Emul.Instructions.{push_word}
use irid.Emul.Decode.{Instruction, fetch}
use irid.Emul.Devices.{
  reg, interrupted, stepped, with_h2, Device, Machine, issue_interrupt, poll_device, poll_from,
  poll_devices, rti, cpucall, devicelist, deviceinfo, deviceintr, devicewrite, deviceread,
  devicepoll, initialize,
}
use irid.Emul.Machine.{
  callr_address, jumped, on_state, on_flag, i_call, i_ret, execute, polled, cycle,
}

module _ {D : Type 0} where
  -- `n` will come back from the interrupt to where `m` will.
  pub record Same (m n : Machine D) : Type 0 where
    pub cached : n.cached ≡ m.cached
    pub inside : n.in_interrupt ≡ m.in_interrupt

  -- Whatever comes out will come back to where `m` will.
  Keeps : Machine D → Running (Machine D) → Type 0
  Keeps m run = (n : Machine D) → run ≡ ok n → Same m n

  ok-Keeps :
      (m k : Machine D) → k.cached ≡ m.cached → k.in_interrupt ≡ m.in_interrupt → Keeps m (ok k)
  unfolding Keeps
  ok-Keeps m k e e' n h = record { cached = cc; inside = cc }

  stop-Keeps : (m : Machine D) (e : CpuFault) → Keeps m (stop e)
  unfolding Keeps
  stop-Keeps m e n h = cc

  >>=-Keeps :
      {A : Type 0} (m : Machine D) (run : Running A) (f : A → Running (Machine D))
      → ((a : A) → Keeps m (f a))
      → Keeps m (run >>= f)
  unfolding Keeps
  >>=-Keeps m run f keeps n h = let (a, e, later) = >>=-eq-ok run f h in keeps a n later

  if-Keeps :
      (m : Machine D) (b : Bool) (x y : Running (Machine D))
      → Keeps m x
      → Keeps m y
      → Keeps m (if b then x else y)
  if-Keeps m true x y kx ky = kx
  if-Keeps m false x y kx ky = ky

  stepped-Keeps :
      (m : Machine D) (run : Running (Machine D))
      → Keeps m run
      → Keeps m (run >>= λ n. ok (stepped n))
  unfolding Keeps
  stepped-Keeps m run keeps n h =
      let (k, e, later) = >>=-eq-ok run (λ n. ok (stepped n)) h in
      let same = keeps k e in
      let last : stepped k ≡ n = cc in
      record { cached = rw (← last) same.cached; inside = rw (← last) same.inside }

  with_h2-Keeps : (m : Machine D) (out : List (Device D) × Option ℕ) → Keeps m (ok (with_h2 m out))
  with_h2-Keeps m (ds, none) = ok-Keeps m (with_h2 m (ds, none)) refl refl
  with_h2-Keeps m (ds, some value) = ok-Keeps m (with_h2 m (ds, some value)) refl refl

  deviceinfo-Keeps : (m : Machine D) (ds : List (Device D)) → Keeps m (deviceinfo m ds)
  unfolding deviceinfo
  deviceinfo-Keeps m [] = ok-Keeps m m refl refl
  deviceinfo-Keeps m (d ∷ ds) =
      if-Keeps m _ _ _ (>>=-Keeps m _ _ (λ c. ok-Keeps m _ refl refl)) (deviceinfo-Keeps m ds)

  cpucall-Keeps : (m : Machine D) → Keeps m (cpucall m)
  unfolding cpucall devicelist deviceintr devicewrite deviceread devicepoll initialize
  cpucall-Keeps m = ground (
    arith,
    stop-Keeps m CpuFault.poweroff,
    stop-Keeps m CpuFault.user,
    stop-Keeps m CpuFault.cpucall,
    ok-Keeps m (initialize m) refl refl,
    stepped-Keeps m _ (deviceinfo-Keeps m m.devices),
    stepped-Keeps m (devicelist m) (>>=-Keeps m _ _ (λ c. ok-Keeps m _ refl refl)),
    stepped-Keeps m (deviceintr m) (>>=-Keeps m _ _ (λ c. ok-Keeps m _ refl refl)),
    stepped-Keeps m (devicewrite m) (>>=-Keeps m _ _ (λ c. ok-Keeps m _ refl refl)),
    stepped-Keeps m (deviceread m) (>>=-Keeps m _ _ (with_h2-Keeps m)),
    stepped-Keeps m (devicepoll m) (>>=-Keeps m _ _ (with_h2-Keeps m)),
  )

  on_state-Keeps : (m : Machine D) (run : Running CpuState) → Keeps m (on_state m run)
  on_state-Keeps m run = >>=-Keeps m run _ (λ c. ok-Keeps m _ refl refl)

  on_flag-Keeps : (m : Machine D) (left : ℕ) (test : ℕ → Bool) → Keeps m (on_flag m left test)
  on_flag-Keeps m left test = >>=-Keeps m _ _ (λ value. ok-Keeps m _ refl refl)

  if-ok-Keeps :
      (m j k : Machine D) (b : Bool)
      → Keeps m (ok j)
      → Keeps m (ok k)
      → Keeps m (ok (if b then j else k))
  if-ok-Keeps m j k true kj kk = kj
  if-ok-Keeps m j k false kj kk = kk

  i_call-Keeps : (m : Machine D) (addr : ℕ) → Keeps m (i_call m addr)
  unfolding i_call
  i_call-Keeps m addr = >>=-Keeps m _ _ (λ c. ok-Keeps m _ refl refl)

  execute-Keeps : (i : Instruction) (m : Machine D) → i ≢ Instruction.rti → Keeps m (execute i m)
  unfolding execute i_ret
  execute-Keeps Instruction.rti m ne = absurd (ne refl)
  execute-Keeps Instruction.nop m ne = ok-Keeps m _ refl refl
  execute-Keeps Instruction.cpucall m ne = cpucall-Keeps m
  execute-Keeps Instruction.sti m ne = ok-Keeps m _ refl refl
  execute-Keeps Instruction.dsi m ne = ok-Keeps m _ refl refl
  execute-Keeps Instruction.cfs m ne = ok-Keeps m _ refl refl
  execute-Keeps Instruction.ret m ne = >>=-Keeps m _ _ (λ addr. ok-Keeps m _ refl refl)
  execute-Keeps (Instruction.callr r) m ne =
      >>=-Keeps m (push_word (u16 (reg m ip + 4)) m.state) _
        (λ c. >>=-Keeps m (callr_address r c) _ (λ addr. ok-Keeps m _ refl refl))
  execute-Keeps (Instruction.jmp addr) m ne = ok-Keeps m _ refl refl
  execute-Keeps (Instruction.jeq addr) m ne =
      if-ok-Keeps m (jumped m addr) (stepped m) m.cf (ok-Keeps m (jumped m addr) refl refl)
        (ok-Keeps m (stepped m) refl refl)
  execute-Keeps (Instruction.call addr) m ne = i_call-Keeps m addr
  execute-Keeps (Instruction.jnz r addr) m ne = >>=-Keeps m _ _ (λ value.
      if-ok-Keeps m (stepped m) (jumped m addr) (value == 0) (ok-Keeps m (stepped m) refl refl)
        (ok-Keeps m (jumped m addr) refl refl))
  execute-Keeps (Instruction.comparison o r s) m ne = >>=-Keeps m _ _ (λ right. on_flag-Keeps m r _)
  execute-Keeps (Instruction.comparison8 o r value) m ne = on_flag-Keeps m r _
  execute-Keeps (Instruction.comparison16 o r value) m ne = on_flag-Keeps m r _
  execute-Keeps _ m ne = on_state-Keeps m _

  -- A handler that runs from `m` to `n`: any number of instructions, none of which returns from the
  -- interrupt.
  pub data Handler : Machine D → Machine D → Type 0 where
    entered : (m : Machine D) → Handler m m
    round :
        {m n : Machine D} (k : Machine D) (i : Instruction)
        → Handler m k
        → fetch (polled k).state ≡ ok i
        → i ≢ Instruction.rti
        → cycle k ≡ ok n
        → Handler m n

  polled-inside : (m : Machine D) → m.in_interrupt ≡ true → polled m ≡ m
  unfolding polled
  polled-inside m h = ground (arith, h)

  Handler-Same : {m n : Machine D} → m.in_interrupt ≡ true → Handler m n → Same m n
  unfolding cycle Keeps
  Handler-Same inside (entered m) = record { cached = refl; inside = refl }
  Handler-Same inside (round k i run at ne step) =
      let before = Handler-Same inside run in
      let same = polled-inside k (before.inside ∙ inside) in
      let (j, at', done) = >>=-eq-ok (fetch (polled k).state) _ step in
      let first : i ≡ j = cc in
      let after = execute-Keeps i k ne _ (rw (← first, same) at done) in
      record { cached = after.cached ∙ before.cached; inside = after.inside ∙ before.inside }

  -- After an interrupt whose handler runs any instructions but `rti`, and then `rti`, the registers and the
  -- compare flag are as they were before the interrupt, and the processor is no longer in an interrupt.
  pub interrupt_returns :
      (m : Machine D) (addr : ℕ) (n k : Machine D)
      → Handler (issue_interrupt addr m) n
      → fetch (polled n).state ≡ ok Instruction.rti
      → cycle n ≡ ok k
      → (k.state.reg ≡ m.state.reg) × (k.cf ≡ m.cf) × (k.in_interrupt ≡ false)
  unfolding cycle execute issue_interrupt rti
  interrupt_returns m addr n k handler at step =
      let back = Handler-Same refl handler in
      let same = polled-inside n back.inside in
      let (j, at', done) = >>=-eq-ok (fetch (polled n).state) _ step in
      let first : Instruction.rti ≡ j = cc in
      let last = rw (← first, same) at done in
      let done' : rti n ≡ k = cc in
      let cached = back.cached in
      (rw (← done') (ap (λ p. p.0) cached), rw (← done') (ap (λ p. p.1) cached), rw (← done') refl)

  poll_next :
      (before : List (Device D)) (d : Device D) (ds : List (Device D)) (m : Machine D)
      (e : Device D) (a : ℕ)
      → poll_device d ≡ (e, some a)
      → poll_from before (d ∷ ds) m ≡ poll_from (before ++ (e ∷ [])) ds (issue_interrupt a m)
  unfolding poll_from
  poll_next before d ds m e a p =
      ap (λ out. poll_from (before ++ (out.0 ∷ [])) ds (interrupted out.1 m)) p

  poll_two :
      (m : Machine D) (d1 d2 e1 e2 : Device D) (a b : ℕ)
      → poll_device d1 ≡ (e1, some a)
      → poll_device d2 ≡ (e2, some b)
      → poll_from [] (d1 ∷ d2 ∷ []) m
        ≡ record (issue_interrupt b (issue_interrupt a m)) { devices = e1 ∷ e2 ∷ [] }
  unfolding poll_from
  poll_two m d1 d2 e1 e2 a b p1 p2 =
      poll_next [] d1 (d2 ∷ []) m e1 a p1 ∙ poll_next (e1 ∷ []) d2 [] (issue_interrupt a m) e2 b p2

  -- Where two devices ask for an interrupt at the same time, the second handler runs first, and what its `rti`
  -- will give back is the place of the first handler: nothing holds the place of the interrupted program.
  pub two_interrupts :
      (m : Machine D) (d1 d2 e1 e2 : Device D) (a b : ℕ)
      → m.devices ≡ d1 ∷ d2 ∷ []
      → poll_device d1 ≡ (e1, some a)
      → poll_device d2 ≡ (e2, some b)
      → ((poll_devices m).state.reg ip ≡ u16 b)
        × ((poll_devices m).cached.0 ip ≡ u16 a)
        × ((i : Register) → i ≢ ip → (poll_devices m).cached.0 i ≡ m.state.reg i)
  unfolding poll_devices issue_interrupt r_store
  two_interrupts m d1 d2 e1 e2 a b ds p1 p2 =
      let whole = ap (λ ds. poll_from [] ds m) ds ∙ poll_two m d1 d2 e1 e2 a b p1 p2 in
      rw whole (ground arith, ground arith, λ i ne. ground arith)
