-- ===== src/Threads/Interleave/Marks.antt =====
-- What a registration has stored at each place, and how many threads stand there.
use mqttv.Base.{ℕ, ◌+◌, ◌≤◌, ◌≡◌, List, arith}
use mqttv.Threads.Places.{Turns, total, total_alone}
use mqttv.Threads.Interleave.{
  Place, opened, entered, reading, named, subscribed, stored, counted, gate, forwarding,
}

-- From sem_wait(sem_mutex) to sem_post(sem_mutex).
abbrev pub in_section : Place → ℕ
in_section (opened fd) = 0
in_section (entered fd) = 1
in_section (reading fd) = 1
in_section (named name sus_line) = 1
in_section (subscribed name sus levels) = 1
in_section stored = 1
in_section counted = 1
in_section gate = 0
in_section (forwarding i) = 0

-- A descriptor, a name and a node stand behind the counted clients.
abbrev pub has_fd : Place → ℕ
has_fd (opened fd) = 0
has_fd (entered fd) = 0
has_fd (reading fd) = 1
has_fd (named name sus_line) = 1
has_fd (subscribed name sus levels) = 1
has_fd stored = 1
has_fd counted = 0
has_fd gate = 0
has_fd (forwarding i) = 0

abbrev pub has_name : Place → ℕ
has_name (opened fd) = 0
has_name (entered fd) = 0
has_name (reading fd) = 0
has_name (named name sus_line) = 1
has_name (subscribed name sus levels) = 1
has_name stored = 1
has_name counted = 0
has_name gate = 0
has_name (forwarding i) = 0

abbrev pub has_sus : Place → ℕ
has_sus (opened fd) = 0
has_sus (entered fd) = 0
has_sus (reading fd) = 0
has_sus (named name sus_line) = 0
has_sus (subscribed name sus levels) = 1
has_sus stored = 1
has_sus counted = 0
has_sus gate = 0
has_sus (forwarding i) = 0

pub fd_in_section : (p : Place) → has_fd p ≤ in_section p
fd_in_section (opened fd) = omega arith
fd_in_section (entered fd) = omega arith
fd_in_section (reading fd) = omega arith
fd_in_section (named name sus_line) = omega arith
fd_in_section (subscribed name sus levels) = omega arith
fd_in_section stored = omega arith
fd_in_section counted = omega arith
fd_in_section gate = omega arith
fd_in_section (forwarding i) = omega arith

pub name_with_fd : (p : Place) → has_name p ≤ has_fd p
name_with_fd (opened fd) = omega arith
name_with_fd (entered fd) = omega arith
name_with_fd (reading fd) = omega arith
name_with_fd (named name sus_line) = omega arith
name_with_fd (subscribed name sus levels) = omega arith
name_with_fd stored = omega arith
name_with_fd counted = omega arith
name_with_fd gate = omega arith
name_with_fd (forwarding i) = omega arith

pub sus_with_name : (p : Place) → has_sus p ≤ has_name p
sus_with_name (opened fd) = omega arith
sus_with_name (entered fd) = omega arith
sus_with_name (reading fd) = omega arith
sus_with_name (named name sus_line) = omega arith
sus_with_name (subscribed name sus levels) = omega arith
sus_with_name stored = omega arith
sus_with_name counted = omega arith
sus_with_name gate = omega arith
sus_with_name (forwarding i) = omega arith

-- The move of the thread in the section, whose weights are then those of all.
pub section_moves :
    (ts us : List Place) (pc pc' : Place) (k : ℕ)
    → total in_section ts + k ≡ 1
    → in_section pc ≡ 1
    → Turns ts pc pc' us
    → ((total has_fd ts ≡ has_fd pc) × (total has_fd us ≡ has_fd pc'))
      × ((total has_name ts ≡ has_name pc) × (total has_name us ≡ has_name pc'))
      × ((total has_sus ts ≡ has_sus pc) × (total has_sus us ≡ has_sus pc'))
      × (total in_section us ≡ in_section pc')
      × (k ≡ 0)
section_moves ts us pc pc' k m e g =
    let name_le = λ (p : Place). name_in_section p in
    let sus_le = λ (p : Place). sus_in_section p in
    let one : total in_section ts ≤ 1 = omega arith in
    let same = λ (p : Place). same_le p in
    (
      total_alone has_fd in_section ts us pc pc' fd_in_section g one e,
      total_alone has_name in_section ts us pc pc' name_le g one e,
      total_alone has_sus in_section ts us pc pc' sus_le g one e,
      (total_alone in_section in_section ts us pc pc' same g one e).1,
      omega (arith, (total_alone in_section in_section ts us pc pc' same g one e).0),
    )
  where
    name_in_section : (p : Place) → has_name p ≤ in_section p
    name_in_section p = omega (arith, name_with_fd p, fd_in_section p)

    sus_in_section : (p : Place) → has_sus p ≤ in_section p
    sus_in_section p = omega (arith, sus_with_name p, name_with_fd p, fd_in_section p)

    same_le : (p : Place) → in_section p ≤ in_section p
    same_le p = omega arith
