-- ===== src/ShowFiles/Proofs.antt =====
-- The example program lets every access go on.
use mathlib.Core.Path.{subst}
use dazukofs_linux.Base.{
  ℕ, ◌^◌, ◌<◌, ◌≤◌, ◌≡◌, refl, sym, ap, ◌&&◌, ◌∙◌, inl, inr, Bool, true, false, Option, none, some,
  List, [], ◌∷◌, ◌++◌, arith, if◌then◌else◌, length, Bool-cases, take, drop, strstr, c_string,
}
use dazukofs_linux.Events.State.{allow, ◌>>=◌, >>=-eq-some}
use dazukofs_linux.Library.{
  fd_key, pid_key, int_value, unsigned_value, Handle, Access, Call, write, rewind, close,
  free_handle, free_name, dazukofs_get_access, access_at, parse_access, dazukofs_return_access,
  response_text, convert,
}
use dazukofs_linux.GroupDevice.{id_key, parse_response}
use dazukofs_linux.GroupDevice.Proofs.{parse_response-response_text}
use dazukofs_linux.Library.Filename.{dazukofs_get_filename-Filename}
use dazukofs_linux.ShowFiles.{
  Round, Shown, shows, stop, print_access, line_of, after_return, show_access, show_accesses,
}

-- The writes of a sequence of calls, each with the descriptor that it goes to.
abbrev pub writes : List Call → List (ℕ × List ℕ)
writes [] = []
writes (write fd xs ∷ cs) = (fd, xs) ∷ writes cs
writes (rewind fd ∷ cs) = writes cs
writes (close fd ∷ cs) = writes cs
writes (free_handle ∷ cs) = writes cs
writes (free_name ∷ cs) = writes cs

writes-append : (xs ys : List Call) → writes (xs ++ ys) ≡ writes xs ++ writes ys
writes-append [] ys = refl
writes-append (write f t ∷ xs) ys = ap (λ zs. (f, t) ∷ zs) (writes-append xs ys)
writes-append (rewind f ∷ xs) ys = writes-append xs ys
writes-append (close f ∷ xs) ys = writes-append xs ys
writes-append (free_handle ∷ xs) ys = writes-append xs ys
writes-append (free_name ∷ xs) ys = writes-append xs ys

-- The kernel reads the text as the answer to the event that lets its access go on.
abbrev pub Permits : (event_id : ℕ) → List ℕ → Type 0
Permits event_id xs = event_id < 10 ^ 11 → parse_response (c_string xs) ≡ some (event_id, allow)

-- A turn that answers: it is run, there is an access, and its file is closed.
abbrev pub answering : Round → Option Access → Bool
answering r none = false
answering r (some acc) = r.running && r.returned.close_succeeds

-- What a turn writes, before what the later turns write.
abbrev pub Answer :
    Bool → (dev_fd event_id : ℕ) → (List (ℕ × List ℕ) → Type 0) → List (ℕ × List ℕ) → Type 0
Answer false dev_fd event_id Later ws = ws ≡ []
Answer true dev_fd event_id Later ws =
    (xs : List ℕ) × (rest : List (ℕ × List ℕ)) × (ws ≡ (dev_fd, xs) ∷ rest)
    × Permits event_id xs
    × Later rest

abbrev pub Later : Bool → (List (ℕ × List ℕ) → Type 0) → List (ℕ × List ℕ) → Type 0
Later true Q ws = Q ws
Later false Q ws = ws ≡ []

-- Each turn that answers writes once, to the device of the group, what permits the access whose
-- number it has read in that turn; the turns go on when the write succeeds.
abbrev pub Allows : List Round → Handle → List (ℕ × List ℕ) → Type 0
Allows [] h ws = ws ≡ []
Allows (r ∷ rs) h ws =
    let got = dazukofs_get_access r.read h in
    Answer (answering r got.0) h.dev_fd got.1.event_id
      (Later r.returned.write_succeeds (Allows rs got.1)) ws

-- The array of each turn has 1024 bytes.
abbrev pub Arrays : List Round → Type 0
Arrays [] = Unit
Arrays (r ∷ rs) = (length r.filename ≡ 1024) × Arrays rs

-- What the parser gives is not a denial yet.
parse_access-plain : (p : List ℕ) (acc : Access) → parse_access p ≡ some acc → acc.deny ≡ false
unfolding parse_access
parse_access-plain p acc e =
    let (p1, e1, e2) = >>=-eq-some (strstr fd_key p) _ e in
    let (p2, e3, e4) = >>=-eq-some (strstr pid_key (convert int_value (drop 3 p1)).1) _ e2 in
    ground arith

access_at-plain :
    (o : Option (List ℕ)) (h : Handle)
    → ((access_at o h).1.dev_fd ≡ h.dev_fd)
      × ((acc : Access) → (access_at o h).0 ≡ some acc → acc.deny ≡ false)
access_at-plain none h = (refl, λ acc e. cc)
access_at-plain (some p) h =
    (refl, λ acc e. parse_access-plain (convert unsigned_value (drop 3 p)).1 acc e)

get_access-plain :
    (read : Option (List ℕ)) (h : Handle)
    → ((dazukofs_get_access read h).1.dev_fd ≡ h.dev_fd)
      × ((acc : Access) → (dazukofs_get_access read h).0 ≡ some acc → acc.deny ≡ false)
unfolding dazukofs_get_access
get_access-plain none h = (refl, λ acc e. cc)
get_access-plain (some text) h = access_at-plain (strstr id_key (c_string (take 47 text))) h

-- What readlink is documented to do.
abbrev pub Bounded : (List ℕ → ℕ → Option (List ℕ)) → Type 0
Bounded readlink =
    (path : List ℕ) (room : ℕ) (xs : List ℕ) → readlink path room ≡ some xs → length xs ≤ room

print_access-total :
    (readlink : List ℕ → ℕ → Option (List ℕ)) (filename : List ℕ) (acc : Access)
    → Bounded readlink
    → length filename ≡ 1024
    → (line : List ℕ) × (print_access readlink filename acc ≡ some line)
unfolding print_access
print_access-total readlink filename acc asked size =
    let (r, buf, eq, _, _) =
      dazukofs_get_filename-Filename readlink acc.fd filename asked (omega (arith, size))
        (omega (arith, size)) in
    (line_of acc.pid (r, buf), rw (eq, ◌>>=◌) refl)

permits : (n : ℕ) (d : Bool) → d ≡ false → Permits n (response_text n d)
permits n d plain small =
    subst (λ d. parse_response (c_string (response_text n d)) ≡ some (n, allow)) (sym plain)
      (parse_response-response_text n false small)

no_answer :
    (r : Round) (got : Option Access) (h : Handle) (Q : List (ℕ × List ℕ) → Type 0) (event_id : ℕ)
    → r.running ≡ false
    → Answer (answering r got) h.dev_fd event_id Q []
no_answer r none h Q event_id stopped = refl
no_answer r (some acc) h Q event_id stopped = rw stopped refl

goes_on : (b : Bool) (x y : Option Shown) → b ≡ true → (if b then x else y) ≡ x
goes_on b x y h = ground arith

module _ (readlink : List ℕ → ℕ → Option (List ℕ)) (asked : Bounded readlink) where
  -- The loop returns, with writes that are as they should be.
  Result : (List (ℕ × List ℕ) → Type 0) → Option Shown → Type 0
  Result Q o = (r : Shown) × (o ≡ some r) × Q (writes r.calls)

  return_access-Answer :
      (closed written : Bool) (h : Handle) (acc : Access) (Q : List (ℕ × List ℕ) → Type 0)
      (line : List ℕ) (rest : Option Shown)
      → acc.deny ≡ false
      → Result Q rest
      → Result (Answer closed h.dev_fd h.event_id (Later written Q)) (
          after_return line
            (dazukofs_return_access
              (record { close_succeeds = closed; write_succeeds = written })
              h
              acc)
            h
            rest)
  unfolding dazukofs_return_access after_return Result
  return_access-Answer false w h acc Q line rest plain others =
      (shows line (close acc.fd ∷ []) (stop h), refl, refl)
  return_access-Answer true false h acc Q line rest plain others =
      let text = response_text h.event_id acc.deny in
      let calls = close acc.fd ∷ write h.dev_fd text ∷ [] in
      (shows line calls (stop h), refl, (text, [], refl, permits h.event_id acc.deny plain, refl))
  return_access-Answer true true h acc Q line rest plain (q, e, others) =
      let text = response_text h.event_id acc.deny in
      let calls = close acc.fd ∷ write h.dev_fd text ∷ rewind h.dev_fd ∷ [] in
      (
        shows line calls q,
        rw (e, ◌>>=◌) refl,
        (text, writes q.calls, refl, permits h.event_id acc.deny plain, others),
      )

  show_access-Answer :
      (r : Round) (got : Option Access) (h : Handle) (rest : Option Shown)
      (Q : List (ℕ × List ℕ) → Type 0)
      → r.running ≡ true
      → length r.filename ≡ 1024
      → ((acc : Access) → got ≡ some acc → acc.deny ≡ false)
      → Result Q rest
      → Result
          (Answer (answering r got) h.dev_fd h.event_id (Later r.returned.write_succeeds Q))
          (show_access readlink r got h rest)
  unfolding show_access Result
  show_access-Answer r none h rest Q on size plain others = (stop h, refl, refl)
  show_access-Answer r (some acc) h rest Q on size plain others =
      let (line, eq) = print_access-total readlink r.filename acc asked size in
      let (q, done, all) =
        return_access-Answer r.returned.close_succeeds r.returned.write_succeeds h acc Q line rest
          (plain acc refl) others in
      (
        q,
        rw (eq, ◌>>=◌) done,
        subst
            (λ b.
              Answer (b && r.returned.close_succeeds) h.dev_fd h.event_id
                (Later r.returned.write_succeeds Q) (writes q.calls))
            (sym on) all,
      )

  -- When readlink answers with at most the bytes that it is asked for, and the array on the stack
  -- has 1024 bytes in every turn, the loop of the example program touches no memory outside its
  -- array, and its writes are these: every turn that is run, reads an access and closes the file of
  -- it writes once, to the device of its group, a text that the parser of the kernel reads, when
  -- the number of the event is below 10 ^ 11, as the answer to the number that was read in that
  -- turn, and which lets the access go on; the turns after it follow when this write succeeds. There
  -- is no other write.
  pub show_accesses-Allows :
      (rs : List Round) (h : Handle)
      → Arrays rs
      → (r : Shown) × (show_accesses readlink rs h ≡ some r) × Allows rs h (writes r.calls)
  unfolding show_accesses Result
  show_accesses-Allows [] h sizes = (stop h, refl, refl)
  show_accesses-Allows (r ∷ rs) h (size, sizes) = elim (Bool-cases r.running) [
    | inr stopped ↦ (
      stop h,
      rw stopped refl,
      no_answer r (dazukofs_get_access r.read h).0 h
          (Later r.returned.write_succeeds (Allows rs (dazukofs_get_access r.read h).1))
          (dazukofs_get_access r.read h).1.event_id stopped,
    )
    | inl on ↦
        (let got = dazukofs_get_access r.read h in
          let (same, plain) = get_access-plain r.read h in
          let (q, e, all) =
            show_access-Answer r got.0 got.1 (show_accesses readlink rs got.1) (Allows rs got.1) on
              size plain (show_accesses-Allows rs got.1 sizes) in
          (
            q,
            goes_on r.running _ (some (stop h)) on ∙ e,
            subst
                (λ fd.
                  Answer (answering r got.0) fd got.1.event_id
                    (Later r.returned.write_succeeds (Allows rs got.1)) (writes q.calls))
                same all,
          ))
  ]
