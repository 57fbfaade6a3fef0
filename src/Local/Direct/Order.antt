-- ===== src/Local/Direct/Order.antt =====
-- What the two directions of a direct relay pass on, src/raw_tcp.cpp (impl_local_relay).
-- The bytes of the events of one direction.
use ssl_socks.Base.{
  ℕ, ◌≤◌, ◌≡◌, refl, sym, ap, ◌∙◌, subst, inl, inr, Bool, true, false, Option, none, some, List, [],
  ◌∷◌, ◌++◌, append-nil, append_assoc, arith, ◌==◌, ==_iff, Bool-cases, either_branch, length, take,
  drop, length-take, length-drop, take-append-drop, Bytes,
}
use ssl_socks.Data.{read_buffer_size}
use ssl_socks.Local.Direct.{
  Line, LineEvent, line_reads, line_writes, line_breaks, new_line, read_line, write_line, line_step,
  line_run, Direct, new_direct, direct_step, direct_run,
}

abbrev pub events_of : Bool → List (Bool × LineEvent) → List LineEvent
events_of dir [] = []
events_of true ((true, e) ∷ es) = e ∷ events_of true es
events_of true ((false, e) ∷ es) = events_of true es
events_of false ((true, e) ∷ es) = events_of false es
events_of false ((false, e) ∷ es) = e ∷ events_of false es

-- What is still to be written.
abbrev pub held : Option Bytes → Bytes
held none = []
held (some buf) = buf

-- What was read is what went out, and behind it what is held, at most a buffer.
pub record InOrder (l : Line) : Type 0 where
  pub order : l.read_in ≡ l.passed ++ held l.holds
  pub small : length (held l.holds) ≤ read_buffer_size

read_line-InOrder :
    (chunk : Bytes) (o : Option Bytes) (l : Line)
    → l.holds ≡ o
    → InOrder l
    → InOrder (read_line chunk o l)
unfolding read_line
read_line-InOrder chunk (some buf) l e h = h
read_line-InOrder chunk none l e h = record {
  order =
      ap (λ xs. xs ++ take read_buffer_size chunk)
        (h.order ∙ ap (λ o. l.passed ++ held o) e ∙ append-nil l.passed);
  small = omega (arith, length-take read_buffer_size chunk);
}

write_line-InOrder :
    (n : ℕ) (o : Option Bytes) (l : Line) → l.holds ≡ o → InOrder l → InOrder (write_line n o l)
unfolding write_line
write_line-InOrder n none l e h = h
write_line-InOrder n (some buf) l e h =
    let whole : l.read_in ≡ l.passed ++ buf = h.order ∙ ap (λ o. l.passed ++ held o) e in
    let little : length buf ≤ read_buffer_size =
      subst (λ o. length (held o) ≤ read_buffer_size) e h.small in
    elim (Bool-cases (n == length buf)) [
      | inl full ↦ rw full (record {
        order =
            whole
            ∙ sym (
                ap (λ k. l.passed ++ take k buf) ((==_iff n (length buf)).0 full)
                ∙ ap (◌++◌ l.passed) (take_all buf))
            ∙ sym (append-nil (l.passed ++ take n buf));
        small = omega arith;
      })
      | inr part ↦ rw part (record {
        order =
            whole
            ∙ ap (◌++◌ l.passed) (sym (take-append-drop n buf))
            ∙ sym (append_assoc l.passed (take n buf) (drop n buf));
        small = omega (arith, little, length-drop n buf);
      })
    ]
  where
    take_all : (xs : Bytes) → take (length xs) xs ≡ xs
    take_all [] = refl
    take_all (x ∷ xs) = ap (◌∷◌ x) (take_all xs)

line_step-InOrder : (e : LineEvent) (l : Line) → InOrder l → InOrder (line_step e l)
unfolding line_step
line_step-InOrder (line_reads chunk) l h =
    either_branch InOrder l.alive (read_line-InOrder chunk l.holds l refl h) h
line_step-InOrder (line_writes n) l h =
    either_branch InOrder l.alive (write_line-InOrder n l.holds l refl h) h
line_step-InOrder line_breaks l h = record { order = h.order; small = h.small }

line_run-InOrder : (es : List LineEvent) (l : Line) → InOrder l → InOrder (line_run es l)
unfolding line_run
line_run-InOrder [] l h = h
line_run-InOrder (e ∷ es) l h = line_run-InOrder es (line_step e l) (line_step-InOrder e l h)

-- The directions do not meet: each is as if the other were not there.
direct_run-line_run :
    (s : ℕ) (es : List (Bool × LineEvent)) (r : Direct)
    → ((direct_run s es r).to_client ≡ line_run (events_of true es) r.to_client)
      × ((direct_run s es r).to_remote ≡ line_run (events_of false es) r.to_remote)
unfolding direct_run direct_step line_run
direct_run-line_run s [] r = (refl, refl)
direct_run-line_run s ((true, e) ∷ es) r = direct_run-line_run s es (direct_step s true e r)
direct_run-line_run s ((false, e) ∷ es) r = direct_run-line_run s es (direct_step s false e r)

-- Whatever reads, writes and errors come, and in whatever order, of each direction of a direct relay
-- the bytes that went out followed by at most a buffer of 4096 are the bytes that were read, and the
-- other direction has no influence on either.
pub direct_run-InOrder :
    (s : ℕ) (es : List (Bool × LineEvent))
    → InOrder (direct_run s es new_direct).to_client
      × InOrder (direct_run s es new_direct).to_remote
      × ((direct_run s es new_direct).to_client ≡ line_run (events_of true es) new_line)
      × ((direct_run s es new_direct).to_remote ≡ line_run (events_of false es) new_line)
direct_run-InOrder s es =
    let (c, r) = direct_run-line_run s es new_direct in
    let fresh : InOrder new_line = record { order = refl; small = omega arith } in
    (
      subst InOrder (sym c) (line_run-InOrder (events_of true es) new_line fresh),
      subst InOrder (sym r) (line_run-InOrder (events_of false es) new_line fresh),
      c,
      r,
    )
