-- ===== src/Tracker/Safety.antt =====
-- The tracker in every order of its steps.
use onlybackup.Prelude.{
  ℕ, ◌+◌, ◌-◌, ◌≤◌, ◌<◌, ◌≡◌, refl, ap, ◌∙◌, inl, inr, Bool, true, false, some, List, [], ◌∷◌, ◌++◌,
  Bool-cases, any, arith, All, ◌==◌, nat_eq,
}
use onlybackup.Tracker.{Tracker, new_tracker, is_closed, enter, leave, stop, start_wait}
use onlybackup.Tracker.Steps.{
  System, initial, Step, entered, refused, left, stopped, wait_started, wait_returned, Reach, here,
  then_step,
}

abbrev AtMost : ℕ → List ℕ → Type 0
AtMost n = All (λ c. c < n)

pub record IsValid (s : System) : Type 0 where
  pub counted : s.tracker.active ≡ s.running
  pub idle : s.tracker.active ≡ 0 → is_closed s.tracker.drained s.tracker ≡ true
  pub busy : is_closed s.tracker.drained s.tracker ≡ true → s.tracker.active ≡ 0
  pub fresh : s.tracker.drained < s.tracker.made
  pub known : AtMost s.tracker.made s.tracker.closed
  pub captured : All (λ c. (c ≡ s.tracker.drained) × (s.tracker.stopping ≡ true)) s.waiting
  pub over : 0 < s.returned → (s.tracker.stopping ≡ true) × (s.running ≡ 0)

initial-IsValid : IsValid initial
unfolding new_tracker is_closed any
initial-IsValid = record {
  counted = refl;
  idle = λ _. refl;
  busy = λ _. refl;
  fresh = omega arith;
  known = omega arith;
  captured = tt;
  over = λ h. elim h [ ];
}

-- a channel that is yet to be made is not closed
not_closed : (n : ℕ) (cs : List ℕ) → AtMost n cs → any (λ d. d == n) cs ≡ false
unfolding any
not_closed n [] h = refl
not_closed n (c ∷ cs) h = ground (arith, not_closed n cs)

AtMost-mono : (n m : ℕ) (cs : List ℕ) → n ≤ m → AtMost n cs → AtMost m cs
AtMost-mono n m [] l h = tt
AtMost-mono n m (c ∷ cs) l h = (omega (arith, h.0), AtMost-mono n m cs l h.1)

captured_none :
    (c : ℕ) (b : Bool) (Q : ℕ → Type 0) (ws : List ℕ)
    → All (λ w. (w ≡ c) × (b ≡ true)) ws
    → b ≡ false
    → All Q ws
captured_none c b Q [] h e = tt
captured_none c b Q (w ∷ ws) h e = let stopped_once : b ≡ true = h.0.1 in cc (stopped_once, e)

All-append_parts :
    (Q : ℕ → Type 0) (xs : List ℕ) (c : ℕ) (ys : List ℕ)
    → All Q (xs ++ c ∷ ys)
    → Q c × All Q (xs ++ ys)
All-append_parts Q [] c ys h = h
All-append_parts Q (x ∷ xs) c ys h = let r = All-append_parts Q xs c ys h.1 in (r.0, (h.0, r.1))

enter-IsValid :
    (s : System) (t : Tracker)
    → enter s.tracker ≡ (true, t)
    → IsValid s
    → IsValid (record s { tracker = t; running = s.running + 1 })
unfolding enter is_closed any
enter-IsValid s t e v =
    let going : s.tracker.stopping ≡ false = ground arith in
    record {
      counted = ground arith;
      idle = λ h. ground arith;
      busy = λ h. ground (arith, not_closed s.tracker.made s.tracker.closed v.known);
      fresh = ground arith;
      known =
          let kept : t.closed ≡ s.tracker.closed = ground arith in
          rw kept (AtMost-mono s.tracker.made t.made s.tracker.closed (ground arith) v.known);
      captured = captured_none s.tracker.drained s.tracker.stopping _ s.waiting v.captured going;
      over = λ h. ground (arith, v.over h);
    }

leave-IsValid :
    (s : System) (t : Tracker) (n : ℕ)
    → s.running ≡ n + 1
    → leave s.tracker ≡ some t
    → IsValid s
    → IsValid (record s { tracker = t; running = n })
unfolding leave is_closed any
leave-IsValid s t n one e v =
    let same : t.stopping ≡ s.tracker.stopping = ground arith in
    let channel : t.drained ≡ s.tracker.drained = ground arith in
    record {
      counted = ground arith;
      idle = λ h. ground arith;
      busy = λ h. ground arith;
      fresh = ground arith;
      known =
          let made : t.made ≡ s.tracker.made = ground arith in
          let wider =
            AtMost-mono s.tracker.made t.made s.tracker.closed (omega (arith, made)) v.known in
          elim (Bool-cases (s.tracker.active == 1)) [
            | inl last ↦
                let closes : t.closed ≡ s.tracker.drained ∷ s.tracker.closed = ground arith in
                rw closes (omega (arith, made, v.fresh), wider)
            | inr more ↦ let kept : t.closed ≡ s.tracker.closed = ground arith in rw kept wider
          ];
      captured = rw same (rw channel v.captured);
      over = λ h. ground (arith, v.over h);
    }

All-stopped :
    (c : ℕ) (b : Bool) (ws : List ℕ)
    → All (λ w. (w ≡ c) × (b ≡ true)) ws
    → All (λ w. (w ≡ c) × (true ≡ true)) ws
All-stopped c b [] h = tt
All-stopped c b (w ∷ ws) h = ((h.0.0, refl), All-stopped c b ws h.1)

stop-IsValid : (s : System) → IsValid s → IsValid (record s { tracker = stop s.tracker })
unfolding stop is_closed
stop-IsValid s v = record {
  counted = v.counted;
  idle = v.idle;
  busy = v.busy;
  fresh = v.fresh;
  known = v.known;
  captured = All-stopped s.tracker.drained s.tracker.stopping s.waiting v.captured;
  over = λ h. (refl, (v.over h).1);
}

start_wait-IsValid :
    (s : System) (t : Tracker) (c : ℕ)
    → start_wait s.tracker ≡ (c, t)
    → IsValid s
    → IsValid (record s { tracker = t; waiting = c ∷ s.waiting })
unfolding start_wait stop
start_wait-IsValid s t c e v =
    let now : t ≡ stop s.tracker = ground arith in
    let channel : c ≡ s.tracker.drained = ground arith in
    let w = stop-IsValid s v in
    rw now (record {
      counted = w.counted;
      idle = w.idle;
      busy = w.busy;
      fresh = w.fresh;
      known = w.known;
      captured = ((channel, refl), w.captured);
      over = w.over;
    })

Step-IsValid : {s s' : System} → Step s s' → IsValid s → IsValid s'
Step-IsValid {s} (entered {t} e) v = enter-IsValid s t e v
Step-IsValid {s} (refused {t} e) v =
    let same : t ≡ s.tracker = unfold enter in ground arith in rw same v
Step-IsValid {s} (left {t} {n} one e) v = leave-IsValid s t n one e v
Step-IsValid {s} stopped v = stop-IsValid s v
Step-IsValid {s} (wait_started {t} {c} e) v = start_wait-IsValid s t c e v
Step-IsValid {s} (wait_returned c before after e closed) v =
    let split = All-append_parts _ before c after (rw e at (v.captured)) in
    let stopped_now : s.tracker.stopping ≡ true = split.0.1 in
    let channel : c ≡ s.tracker.drained = split.0.0 in
    let drained = v.busy (rw channel at closed) in
    record {
      counted = v.counted;
      idle = v.idle;
      busy = v.busy;
      fresh = v.fresh;
      known = v.known;
      captured = split.1;
      over = λ h. (stopped_now, omega (arith, drained, v.counted));
    }

Reach-IsValid : {s s' : System} → Reach s s' → IsValid s → IsValid s'
Reach-IsValid here v = v
Reach-IsValid (then_step r e) v = Step-IsValid e (Reach-IsValid r v)

-- Whatever the goroutines do and in whatever order: once any call of Wait has returned, no admitted work is
-- running, and Enter refuses.
pub Wait-IsDrained :
    (s : System)
    → Reach initial s
    → 0 < s.returned
    → (s.running ≡ 0) × (s.tracker.active ≡ 0) × ((enter s.tracker).0 ≡ false)
unfolding enter
Wait-IsDrained s r h =
    let v = Reach-IsValid r initial-IsValid in
    let (halted, idle) = v.over h in (idle, omega (arith, idle, v.counted), rw halted refl)

leaves :
    (t : Tracker)
    → 0 < t.active
    → is_closed t.drained t ≡ false
    → (t' : Tracker) × (leave t ≡ some t')
unfolding leave
leaves t h fresh =
    let running : (t.active == 0) ≡ false = ground arith in
    elim (Bool-cases (t.active == 1)) [
      | inl last ↦ (
        record t { active = 0; closed = t.drained ∷ t.closed },
        rw running (rw last (rw fresh refl)),
      )
      | inr more ↦ (record t { active = t.active - 1 }, rw running (rw more refl))
    ]

-- the channel of work that is running is open
still_open :
    (s : System) → IsValid s → 0 < s.tracker.active → is_closed s.tracker.drained s.tracker ≡ false
still_open s v h = elim (Bool-cases (is_closed s.tracker.drained s.tracker)) [
  | inl shut ↦ absurd (omega (arith, h, v.busy shut))
  | inr open_still ↦ open_still
]

All-closed :
    (t : Tracker) (ws : List ℕ)
    → is_closed t.drained t ≡ true
    → All (λ c. (c ≡ t.drained) × (t.stopping ≡ true)) ws
    → All (λ c. is_closed c t ≡ true) ws
All-closed t [] d h = tt
All-closed t (c ∷ ws) d h = (ap (λ x. is_closed x t) h.0.0 ∙ d, All-closed t ws d h.1)

-- Leave never panics, neither itself nor by closing a closed channel, while an admitted handler is running, and when the last of them has left, every caller
-- of Wait proceeds.
pub leave-IsLive :
    (s : System)
    → Reach initial s
    → (0 < s.running → (t : Tracker) × (leave s.tracker ≡ some t))
      × (s.running ≡ 0 → All (λ c. is_closed c s.tracker ≡ true) s.waiting)
leave-IsLive s r =
    let v = Reach-IsValid r initial-IsValid in
    (
      λ h.
          leaves s.tracker (omega (arith, h, v.counted))
            (still_open s v (omega (arith, h, v.counted))),
      λ h. All-closed s.tracker s.waiting (v.idle (omega (arith, h, v.counted))) v.captured,
    )
