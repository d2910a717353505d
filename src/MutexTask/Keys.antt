-- ===== src/MutexTask/Keys.antt =====
-- Every move of a `MutexTask` keeps which thread is about which key and how its execution has ended.
use fancy_go.Base.{ℕ, ◌≡◌, ◌≢◌, ◌<◌, true, false, List, Option, none, some, arith}
use fancy_go.MutexTask.System.{
  update, Task, Outcome, Pc, Move, lead, join, done, panic, release, send, finish, receive,
}
use fancy_go.MutexTask.Invariant.{count, key_led, awaits, pending, Inv}
use fancy_go.MutexTask.Endings.{
  Ending, key_after, ending_after, own_of, shared_of, is_idle, unrun, sent_by, returned_by, Told,
}

module _ {t : Task} {m : t.Key → Option (List ℕ)} {b : ℕ → Option (Outcome t)} {pc : ℕ → Pc t}
    (inv : Inv t m b pc) (key : ℕ → Option t.Key) (ending : ℕ → Option (Ending t))
    (h : Told t key ending b pc) (i : ℕ) where
  open h use {keyless, keyed, led_key, awaited_key, not_run, sent, kept, one_key}

  pub Move-key :
      {p p' : Pc t} {m' : t.Key → Option (List ℕ)} {b' : ℕ → Option (Outcome t)}
      (mv : Move t i m b p m' b' p')
      → pc i ≡ p
      → (w : ℕ) → key w ≢ none
      → update key i (key_after t mv (key i)) w ≡ key w
  Move-key (lead {k = k'} g) e w g' = ground (arith, keyless i)
  Move-key (join {k = k'} {ws = ws} g) e w g' = ground (arith, keyless i)
  Move-key (done o') e w g' = ground (arith, keyless i)
  Move-key (panic v) e w g' = ground (arith, keyless i)
  Move-key (release {k = k'}) e w g' = ground (arith, keyless i)
  Move-key (send {w = w'} {ws = ws} g) e w g' = ground (arith, keyless i)
  Move-key finish e w g' = ground (arith, keyless i)
  Move-key (receive {k = k'} g) e w g' = ground (arith, keyless i)

  pub Move-ending :
      {p p' : Pc t} {m' : t.Key → Option (List ℕ)} {b' : ℕ → Option (Outcome t)}
      (mv : Move t i m b p m' b' p')
      → pc i ≡ p
      → (w : ℕ) → ending w ≢ none
      → update ending i (ending_after t mv (ending i)) w ≡ ending w
  Move-ending (lead {k = k'} g) e w g' = ground (arith, not_run i)
  Move-ending (join {k = k'} {ws = ws} g) e w g' = ground (arith, not_run i)
  Move-ending (done o') e w g' = ground (arith, not_run i)
  Move-ending (panic v) e w g' = ground (arith, not_run i)
  Move-ending (release {k = k'}) e w g' = ground (arith, not_run i)
  Move-ending (send {w = w'} {ws = ws} g) e w g' = ground (arith, not_run i)
  Move-ending finish e w g' = ground (arith, not_run i)
  Move-ending (receive {k = k'} g) e w g' = ground (arith, not_run i)

  pub Move-keyless :
      {p p' : Pc t} {m' : t.Key → Option (List ℕ)} {b' : ℕ → Option (Outcome t)}
      (mv : Move t i m b p m' b' p')
      → pc i ≡ p
      → (j : ℕ) → is_idle t (update pc i p' j) ≡ true
      → update key i (key_after t mv (key i)) j ≡ none
  Move-keyless (lead {k = k'} g) e j g' = ground (arith, keyless j)
  Move-keyless (join {k = k'} {ws = ws} g) e j g' = ground (arith, keyless j)
  Move-keyless (done o') e j g' = ground (arith, keyless j)
  Move-keyless (panic v) e j g' = ground (arith, keyless j)
  Move-keyless (release {k = k'}) e j g' = ground (arith, keyless j)
  Move-keyless (send {w = w'} {ws = ws} g) e j g' = ground (arith, keyless j)
  Move-keyless finish e j g' = ground (arith, keyless j)
  Move-keyless (receive {k = k'} g) e j g' = ground (arith, keyless j)

  pub Move-keyed :
      {p p' : Pc t} {m' : t.Key → Option (List ℕ)} {b' : ℕ → Option (Outcome t)}
      (mv : Move t i m b p m' b' p')
      → pc i ≡ p
      → (j : ℕ) → is_idle t (update pc i p' j) ≡ false
      → update key i (key_after t mv (key i)) j ≢ none
  Move-keyed (lead {k = k'} g) e j g' = ground (arith, keyed j)
  Move-keyed (join {k = k'} {ws = ws} g) e j g' = ground (arith, keyed j)
  Move-keyed (done o') e j g' = ground (arith, keyed j)
  Move-keyed (panic v) e j g' = ground (arith, keyed j)
  Move-keyed (release {k = k'}) e j g' = ground (arith, keyed j)
  Move-keyed (send {w = w'} {ws = ws} g) e j g' = ground (arith, keyed j)
  Move-keyed finish e j g' = ground (arith, keyed j)
  Move-keyed (receive {k = k'} g) e j g' = ground (arith, keyed j)

  pub Move-led_key :
      {p p' : Pc t} {m' : t.Key → Option (List ℕ)} {b' : ℕ → Option (Outcome t)}
      (mv : Move t i m b p m' b' p')
      → pc i ≡ p
      → (j : ℕ) (k : t.Key) → key_led t (update pc i p' j) ≡ some k
      → update key i (key_after t mv (key i)) j ≡ some k
  Move-led_key (lead {k = k'} g) e j k g' = ground (arith, led_key j k)
  Move-led_key (join {k = k'} {ws = ws} g) e j k g' = ground (arith, led_key j k)
  Move-led_key (done o') e j k g' = ground (arith, led_key j k)
  Move-led_key (panic v) e j k g' = ground (arith, led_key j k)
  Move-led_key (release {k = k'}) e j k g' = ground (arith, led_key j k)
  Move-led_key (send {w = w'} {ws = ws} g) e j k g' = ground (arith, led_key j k)
  Move-led_key finish e j k g' = ground (arith, led_key j k)
  Move-led_key (receive {k = k'} g) e j k g' = ground (arith, led_key j k)

  pub Move-awaited_key :
      {p p' : Pc t} {m' : t.Key → Option (List ℕ)} {b' : ℕ → Option (Outcome t)}
      (mv : Move t i m b p m' b' p')
      → pc i ≡ p
      → (j : ℕ) (k : t.Key) → awaits t (update pc i p' j) ≡ some k
      → update key i (key_after t mv (key i)) j ≡ some k
  Move-awaited_key (lead {k = k'} g) e j k g' = ground (arith, awaited_key j k)
  Move-awaited_key (join {k = k'} {ws = ws} g) e j k g' = ground (arith, awaited_key j k)
  Move-awaited_key (done o') e j k g' = ground (arith, awaited_key j k)
  Move-awaited_key (panic v) e j k g' = ground (arith, awaited_key j k)
  Move-awaited_key (release {k = k'}) e j k g' = ground (arith, awaited_key j k)
  Move-awaited_key (send {w = w'} {ws = ws} g) e j k g' = ground (arith, awaited_key j k)
  Move-awaited_key finish e j k g' = ground (arith, awaited_key j k)
  Move-awaited_key (receive {k = k'} g) e j k g' = ground (arith, awaited_key j k)

  pub Move-not_run :
      {p p' : Pc t} {m' : t.Key → Option (List ℕ)} {b' : ℕ → Option (Outcome t)}
      (mv : Move t i m b p m' b' p')
      → pc i ≡ p
      → (j : ℕ) → unrun t (update pc i p' j) ≡ true
      → update ending i (ending_after t mv (ending i)) j ≡ none
  Move-not_run (lead {k = k'} g) e j g' = ground (arith, not_run j)
  Move-not_run (join {k = k'} {ws = ws} g) e j g' = ground (arith, not_run j)
  Move-not_run (done o') e j g' = ground (arith, not_run j)
  Move-not_run (panic v) e j g' = ground (arith, not_run j)
  Move-not_run (release {k = k'}) e j g' = ground (arith, not_run j)
  Move-not_run (send {w = w'} {ws = ws} g) e j g' = ground (arith, not_run j)
  Move-not_run finish e j g' = ground (arith, not_run j)
  Move-not_run (receive {k = k'} g) e j g' = ground (arith, not_run j)

  pub Move-sent :
      {p p' : Pc t} {m' : t.Key → Option (List ℕ)} {b' : ℕ → Option (Outcome t)}
      (mv : Move t i m b p m' b' p')
      → pc i ≡ p
      → (j : ℕ) (o : Outcome t) → sent_by t (update pc i p' j) ≡ some o
      → shared_of t (update ending i (ending_after t mv (ending i)) j) ≡ some o
  Move-sent (lead {k = k'} g) e j o g' = ground (arith, sent j o)
  Move-sent (join {k = k'} {ws = ws} g) e j o g' = ground (arith, sent j o)
  Move-sent (done o') e j o g' = ground (arith, sent j o)
  Move-sent (panic v) e j o g' = ground (arith, sent j o)
  Move-sent (release {k = k'}) e j o g' = ground (arith, sent j o)
  Move-sent (send {w = w'} {ws = ws} g) e j o g' = ground (arith, sent j o)
  Move-sent finish e j o g' = ground (arith, sent j o)
  Move-sent (receive {k = k'} g) e j o g' = ground (arith, sent j o)

  pub Move-kept :
      {p p' : Pc t} {m' : t.Key → Option (List ℕ)} {b' : ℕ → Option (Outcome t)}
      (mv : Move t i m b p m' b' p')
      → pc i ≡ p
      → (j : ℕ) (o : Outcome t) → returned_by t (update pc i p' j) ≡ some o
      → own_of t (update ending i (ending_after t mv (ending i)) j) ≡ some o
  Move-kept (lead {k = k'} g) e j o g' = ground (arith, kept j o)
  Move-kept (join {k = k'} {ws = ws} g) e j o g' = ground (arith, kept j o)
  Move-kept (done o') e j o g' = ground (arith, kept j o)
  Move-kept (panic v) e j o g' = ground (arith, kept j o)
  Move-kept (release {k = k'}) e j o g' = ground (arith, kept j o)
  Move-kept (send {w = w'} {ws = ws} g) e j o g' = ground (arith, kept j o)
  Move-kept finish e j o g' = ground (arith, kept j o)
  Move-kept (receive {k = k'} g) e j o g' = ground (arith, kept j o)

  pub Move-one_key :
      {p p' : Pc t} {m' : t.Key → Option (List ℕ)} {b' : ℕ → Option (Outcome t)}
      (mv : Move t i m b p m' b' p')
      → pc i ≡ p
      → (w j : ℕ) → 0 < count w (pending t (update pc i p' j))
      → update key i (key_after t mv (key i)) w ≡ update key i (key_after t mv (key i)) j
  Move-one_key (lead {k = k'} g) e w j g' = ground (arith, one_key w j, keyed j, keyless i)
  Move-one_key (join {k = k'} {ws = ws} g) e w j g' =
      ground (arith, one_key w j, keyed j, keyless i)
  Move-one_key (done o') e w j g' = ground (arith, one_key w j, keyed j, keyless i)
  Move-one_key (panic v) e w j g' = ground (arith, one_key w j, keyed j, keyless i)
  Move-one_key (release {k = k'}) e w j g' =
      ground (arith, one_key w j, inv.listed w k', awaited_key w k', led_key i k')
  Move-one_key (send {w = w'} {ws = ws} g) e w j g' =
      ground (arith, one_key w j, keyed j, keyless i)
  Move-one_key finish e w j g' = ground (arith, one_key w j, keyed j, keyless i)
  Move-one_key (receive {k = k'} g) e w j g' = ground (arith, one_key w j, keyed j, keyless i)
