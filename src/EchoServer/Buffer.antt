-- ===== src/EchoServer/Buffer.antt =====
-- exp1/server.c: the buffer holds the beginning of what has been received.
use rnd.Common.{
  ℕ, zero, suc, ◌-◌, ◌*◌, ◌≤◌, ◌<◌, List, [], ◌∷◌, ◌++◌, ◌≡◌, refl, sym, ap, ◌∙◌, arith, length,
  take,
}
use mathlib.Core.List.{append_assoc, append-nil}
use rnd.Common.Word.{sub64}
use rnd.Common.Text.{c_string}
use rnd.EchoServer.State.{
  buffer_size, max_clients, Server, init, strncat, Event, accept_failed, accepted, disconnected,
  received, wakes, append, handle_event, run,
}

-- The text of all that has been read, each piece up to its first NUL.
abbrev pub all_text : List Event → List ℕ
all_text [] = []
all_text (accept_failed ∷ es) = all_text es
all_text (accepted fd ∷ es) = all_text es
all_text (disconnected fd ∷ es) = all_text es
all_text (received fd bytes ∷ es) = c_string bytes ++ all_text es
all_text (wakes ∷ es) = all_text es

take_within : {A : Type 0} (n : ℕ) (xs : List A) → length (take n xs) ≤ n
take_within zero xs = omega arith
take_within (suc n) [] = omega arith
take_within (suc n) (x ∷ xs) = omega (arith, take_within n xs)

take-append :
    {A : Type 0} (n : ℕ) (xs ys : List A)
    → take n (xs ++ ys) ≡ take n xs ++ take (n - length (take n xs)) ys
take-append zero [] ys = refl
take-append (suc n) [] ys = let whole : suc n ≡ suc n - 0 = omega arith in ap (λ m. take m ys) whole
take-append zero (x ∷ xs) ys = refl
take-append (suc n) (x ∷ xs) ys =
    ap (λ zs. x ∷ zs) (take-append n xs ys ∙ ap (λ m. take n xs ++ take m ys) (omega arith))

-- All but the byte for the NUL.
abbrev pub capacity : ℕ
capacity = 2047

append-buffer :
    (text bytes : List ℕ) (s : Server)
    → s.common_buffer ≡ take capacity text
    → (append bytes s).common_buffer ≡ take capacity (text ++ c_string bytes)
unfolding append strncat
append-buffer text bytes s h =
    let used : length s.common_buffer ≤ capacity =
      omega (arith, take_within capacity text, ap length h) in
    let left : sub64 (sub64 2048 (length s.common_buffer)) 1 ≡ capacity - length s.common_buffer =
      omega arith in
    ap (λ n. s.common_buffer ++ take n (c_string bytes)) left
    ∙ ap (λ b. b ++ take (capacity - length b) (c_string bytes)) h
    ∙ sym (take-append capacity text (c_string bytes))

run-buffer :
    (es : List Event) (text : List ℕ) (s : Server)
    → s.common_buffer ≡ take capacity text
    → (run es s).common_buffer ≡ take capacity (text ++ all_text es)
unfolding run handle_event
run-buffer [] text s h = h ∙ ap (take capacity) (sym (append-nil text))
run-buffer (accept_failed ∷ es) text s h = run-buffer es text s h
run-buffer (accepted fd ∷ es) text s h =
    run-buffer es text (record s { registered = fd ∷ s.registered }) h
run-buffer (disconnected fd ∷ es) text s h =
    run-buffer es text (record s { closed = fd ∷ s.closed }) h
run-buffer (received fd bytes ∷ es) text s h =
    run-buffer es (text ++ c_string bytes) (append bytes s) (append-buffer text bytes s h)
    ∙ ap (take capacity) (append_assoc text (c_string bytes) (all_text es))
run-buffer (wakes ∷ es) text s h =
    run-buffer es text (record s { printed = s.printed ++ s.common_buffer ∷ [] }) h

-- After any run the buffer holds the first 2047 characters of all the text received, each piece
-- up to its first NUL, and its string is shorter than the array.
pub buffer_holds_prefix :
    (es : List Event)
    → ((run es init).common_buffer ≡ take capacity (all_text es))
      × (length (run es init).common_buffer < buffer_size * max_clients)
unfolding init
buffer_holds_prefix es =
    let held = run-buffer es [] init refl in
    (held, omega (arith, take_within capacity (all_text es), ap length held))
