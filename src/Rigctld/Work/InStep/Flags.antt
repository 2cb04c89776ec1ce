-- ===== src/Rigctld/Work/InStep/Flags.antt =====
-- `update_poll_flags` on the descriptors of the clients.
use cwsd.Shared.{ℕ, ◌≡◌, refl, sym, ap, true, some, List, [], ◌∷◌}
use mathlib.Core.List.{map}
use cwsd.Rigctld.Clients.{Clients, erase}
use cwsd.Rigctld.Clients.Keys.{WellKeyed, fds, erase-WellKeyed}
use cwsd.Rigctld.Poll.{
  has_output, poll_fd_of, update_poll_descriptors, flag_clients, update_poll_flags,
}
use cwsd.Rigctld.Work.{erase_all}

head_or : ℕ → List ℕ → ℕ
head_or d [] = d
head_or d (x ∷ xs) = x

tail : List ℕ → List ℕ
tail [] = []
tail (x ∷ xs) = xs

flag_clients_lem :
    (cs ds : Clients)
    → fds cs ≡ fds ds
    → flag_clients cs (map poll_fd_of ds) ≡ some (map poll_fd_of cs)
unfolding head_or tail
flag_clients_lem [] [] e = refl
flag_clients_lem [] (d ∷ ds) e = cc
flag_clients_lem (c ∷ cs) [] e = cc
flag_clients_lem (c ∷ cs) (d ∷ ds) e = rw (flag_clients_lem cs ds (ap tail e)) (
    ap
      (λ (fd : ℕ).
        some ((record { fd = fd; pollin = true; pollout = has_output c.1 }) ∷ map poll_fd_of cs))
      (sym (ap (head_or 0) e)))

pub update_poll_flags_lem :
    (server_fd : ℕ) (cs ds : Clients)
    → fds cs ≡ fds ds
    → update_poll_flags cs (update_poll_descriptors server_fd ds)
      ≡ some (update_poll_descriptors server_fd cs)
unfolding update_poll_flags
update_poll_flags_lem server_fd cs ds e = rw (flag_clients_lem cs ds e, update_poll_flags) refl

pub erase_all-WellKeyed : (rs : List ℕ) (cs : Clients) → WellKeyed cs → WellKeyed (erase_all rs cs)
unfolding erase_all
erase_all-WellKeyed [] cs w = w
erase_all-WellKeyed (r ∷ rs) cs w = erase_all-WellKeyed rs (erase r cs) (erase-WellKeyed r cs w)
