-- ===== src/GroupDevice/Delivered.antt =====
-- What dazukofs_group_read of group_dev.c prints, read by dazukofs_get_access of test/lib.
use dazukofs_linux.Base.{
  ℕ, zero, suc, ◌+◌, ◌-◌, ◌%◌, ◌^◌, ◌≤◌, ◌<◌, ◌≡◌, refl, sym, ap, ◌∙◌, inl, inr, true, false, some,
  none, List, [], ◌∷◌, ◌++◌, leb, ltb, ◌==◌, length, length-append, take, replicate, decimal,
  c_string, strstr, arith, Bool-cases,
}
use mathlib.Core.List.{append-nil}
use dazukofs_linux.Library.{Handle, dazukofs_get_access, access_at}
use dazukofs_linux.GroupDevice.{
  dazukofs_group_read, event_text, signed_decimal, deliver_text, deliver_printed, Reading, id_key,
  fd_value,
}
use dazukofs_linux.GroupDevice.Proofs.{take-all}
use dazukofs_linux.Events.State.{Ret, State, ok, ◌>>=◌}
use dazukofs_linux.Events.Deliver.{Wakeup, Files, delivers, dazukofs_get_event}
use dazukofs_linux.GroupDevice.Printed.{
  printed, seen, printed-append, c_string-printed, access_at-printed,
}

take-append : (k : ℕ) (xs ys : List ℕ) → length xs ≡ k → take k (xs ++ ys) ≡ xs
take-append zero [] [] h = refl
take-append zero [] (y ∷ ys) h = refl
take-append zero (x ∷ xs) ys h = absurd (omega arith)
take-append (suc k) [] ys h = absurd (omega arith)
take-append (suc k) (x ∷ xs) ys h = ap (λ zs. x ∷ zs) (take-append k xs ys (omega arith))

event_text-printed :
    (n fd pid : ℕ)
    → fd < 2 ^ 31
    → pid < 2 ^ 31
    → event_text n fd pid ≡ printed n fd pid (b'\n' ∷ [])
unfolding event_text
event_text-printed n fd pid hf hp = rw (plain fd hf, plain pid hp) refl
  where
    plain : (m : ℕ) → m < 2 ^ 31 → signed_decimal m ≡ decimal m
    plain m h = ground arith

-- How the text ends in the buffer: with its line feed or, cut by one byte, with a NUL.
data Ending : List ℕ → Type 0 where
  whole : Ending (b'\n' ∷ [])
  cut : Ending (0 ∷ [])

get_access-read :
    (text u : List ℕ) (h : Handle)
    → length text ≤ 47
    → c_string text ≡ u
    → dazukofs_get_access (some text) h ≡ access_at (strstr id_key u) h
unfolding dazukofs_get_access
get_access-read text u h short e = rw (take-all 47 text short, e) refl

read-Ending :
    (n fd pid : ℕ) (t : List ℕ) (h : Handle)
    → n < 2 ^ 64
    → fd < 2 ^ 31
    → pid < 2 ^ 31
    → Ending t
    → length (printed n fd pid t) ≤ 47
    → dazukofs_get_access (some (printed n fd pid t)) h
      ≡ (some (seen fd pid), record h { event_id = n })
read-Ending n fd pid t h hn hf hp whole short =
    get_access-read _ _ h short (c_string-printed n fd pid (b'\n' ∷ []))
    ∙ access_at-printed n fd pid hn hf hp (b'\n' ∷ []) refl h
read-Ending n fd pid t h hn hf hp cut short =
    get_access-read _ _ h short (c_string-printed n fd pid (0 ∷ []))
    ∙ access_at-printed n fd pid hn hf hp [] tt h

abbrev buffer : List ℕ → List ℕ
buffer text = take 41 text ++ replicate (length text - 41) 0

module _ (body : List ℕ) (fits : length body ≤ 41) where
  buffer-eq : (t : List ℕ) × (buffer (body ++ b'\n' ∷ []) ≡ body ++ t) × Ending t
  buffer-eq = elim (Bool-cases (length body == 41)) [
    | inl full ↦ (
      0 ∷ [],
      rw (take-append 41 body (b'\n' ∷ []) (ground arith), one_over (ground arith)) refl,
      cut,
    )
    | inr less ↦ (
      b'\n' ∷ [],
      rw
          (
            take-all 41 (body ++ b'\n' ∷ []) (omega (arith, short (ground arith))),
            none_over (ground arith),
          )
          (append-nil (body ++ b'\n' ∷ [])),
      whole,
    )
  ]
    where
      size : length (body ++ b'\n' ∷ []) ≡ length body + 1
      size = length-append body (b'\n' ∷ [])

      short : length body < 41 → length (body ++ b'\n' ∷ []) ≤ 41
      short h = omega (arith, size)

      one_over : length body ≡ 41 → length (body ++ b'\n' ∷ []) - 41 ≡ 1
      one_over h = omega (arith, size)

      none_over : length body < 41 → length (body ++ b'\n' ∷ []) - 41 ≡ 0
      none_over h = omega (arith, size)

printed_copied :
    (gid n : ℕ) (fd : Ret) (s : State) (text tmp : List ℕ)
    → leb 43 (length text) ≡ false
    → buffer text ≡ tmp
    → deliver_printed gid true n fd text s
      ≡ some (record {
        ret = ok (length text);
        text = tmp;
        pos = length text;
        closed = none;
        state = s;
      })
unfolding deliver_printed
printed_copied gid n fd s text tmp short held = rw (short, ← held) refl

text_of :
    (gid n fd pid : ℕ) (s : State) (text : List ℕ)
    → event_text n (fd_value (ok fd)) pid ≡ text
    → deliver_text gid true n (ok fd) pid s ≡ deliver_printed gid true n (ok fd) text s
unfolding deliver_text
text_of gid n fd pid s text e = ap (λ u. deliver_printed gid true n (ok fd) u s) e

-- What the buffer of 43 bytes holds of a text of at most 42.
deliver-Ending :
    (gid n fd pid : ℕ) (s : State)
    → fd < 2 ^ 31
    → pid < 2 ^ 31
    → length (event_text n fd pid) ≤ 42
    → (r : Reading) × (t : List ℕ) × (deliver_text gid true n (ok fd) pid s ≡ some r)
      × (r.ret ≡ ok (length r.text))
      × (r.text ≡ printed n fd pid t)
      × Ending t
      × (length r.text ≤ 42)
      × (r.state ≡ s)
deliver-Ending gid n fd pid s hf hp short =
    let body = printed n fd pid [] in
    let text : event_text n fd pid ≡ body ++ b'\n' ∷ [] =
      event_text-printed n fd pid hf hp ∙ sym (printed-append n fd pid (b'\n' ∷ [])) in
    let few : length (body ++ b'\n' ∷ []) ≤ 42 = rw text at short in
    let size = length-append body (b'\n' ∷ []) in
    let (t, held, ending) = buffer-eq body (omega (arith, few, size)) in
    let same_length : length (body ++ t) ≡ length (body ++ b'\n' ∷ []) =
      length-append body t ∙ ap (λ k. length body + k) (Ending-length t ending) ∙ sym size in
    let m = length (body ++ b'\n' ∷ []) in
    (
      record { ret = ok m; text = body ++ t; pos = m; closed = none; state = s },
      t,
      text_of gid n fd pid s _ (ap (λ j. event_text n j pid) (plain fd hf) ∙ text)
          ∙ printed_copied gid n (ok fd) s _ _ (not_more few) held,
      ap ok (sym same_length),
      printed-append n fd pid t,
      ending,
      omega (arith, same_length, few),
      refl,
    )
  where
    not_more : {m : ℕ} → m ≤ 42 → leb 43 m ≡ false
    not_more h = ground arith

    plain : (m : ℕ) → m < 2 ^ 31 → m % 2 ^ 32 ≡ m
    plain m h = omega arith

    Ending-length : (t : List ℕ) → Ending t → length t ≡ 1
    Ending-length t whole = refl
    Ending-length t cut = refl

-- When dazukofs_get_event delivers an event to a read at the start of the device that asks for 43
-- bytes or more, with an event id below 2^64, a descriptor and a process id below 2^31, whose text
-- has at most 42 bytes: the read returns the length of what it hands out, leaves the state of the
-- events as it is, and dazukofs_get_access of the library finds in it the descriptor, the process
-- and the event id.
pub read-get_access :
    (gid self count n fd pid : ℕ) (ws : List Wakeup) (k : Files) (s s' : State) (h : Handle)
    → dazukofs_get_event gid ws k self s ≡ some (delivers n (ok fd) pid, s')
    → n < 2 ^ 64
    → fd < 2 ^ 31
    → pid < 2 ^ 31
    → 43 ≤ count
    → length (event_text n fd pid) ≤ 42
    → (r : Reading) × (dazukofs_group_read gid ws k true self count 0 s ≡ some (some r))
      × (r.ret ≡ ok (length r.text))
      × (r.state ≡ s')
      × (dazukofs_get_access (some r.text) h
          ≡ (some (record { deny = false; fd = fd; pid = pid }), record h { event_id = n }))
unfolding dazukofs_group_read
read-get_access gid self count n fd pid ws k s s' h e hn hf hp room short =
    let (r, t, eq, size, text, ending, fits, same) = deliver-Ending gid n fd pid s' hf hp short in
    let few : length (printed n fd pid t) ≤ 47 = rw text at (loose (length r.text) fits) in
    (
      r,
      rw (e, ◌>>=◌, large_enough room, eq) refl,
      size,
      same,
      rw text (read-Ending n fd pid t h hn hf hp ending few),
    )
  where
    large_enough : {c : ℕ} → 43 ≤ c → ltb c 43 ≡ false
    large_enough h = ground arith

    loose : (m : ℕ) → m ≤ 42 → m ≤ 47
    loose m h = omega arith
