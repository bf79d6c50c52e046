-- ===== src/PacketManager/Dispatch/After.antt =====
-- The packets that came after a close, and what becomes of them when packets are taken and answered.
use sftp_go.Base.{
  ℕ, suc, ◌<◌, ◌≤◌, ◌≡◌, arith, true, Option, none, some, List, [], ◌∷◌, ◌++◌, length, All,
}
use sftp_go.Packet.{Packet}
use sftp_go.PacketManager.{Ordered}
use sftp_go.PacketManager.Dispatch.{is_close}

abbrev pub one_of : Option (Ordered Packet) → ℕ
one_of none = 0
one_of (some p) = 1

-- If the packet is a close, everything in the list came after it.
abbrev pub AfterClose : Option (Ordered Packet) → List (Ordered Packet) → Type 0
AfterClose none xs = Unit {0}
AfterClose (some c) xs = is_close c.content ≡ true → All (λ p. c.orderid < p.orderid) xs

abbrev pub Past : ℕ → Option (Ordered Packet) → Type 0
Past n none = Unit {0}
Past n (some p) = p.orderid ≤ n

abbrev pub Before : Option (Ordered Packet) → Option (Ordered Packet) → Type 0
Before (some c) (some h) = c.orderid < h.orderid
Before _ _ = Unit {0}

pub Past-suc : (n : ℕ) (c : Option (Ordered Packet)) → Past n c → Past (suc n) c
Past-suc n none h = tt
Past-suc n (some p) h = omega arith

pub Before-new :
    (n : ℕ) (c : Option (Ordered Packet)) (p : Ordered Packet)
    → Past n c
    → p.orderid ≡ suc n
    → Before c (some p)
Before-new n none p h e = tt
Before-new n (some c) p h e = omega arith

pub Before-none : (c : Option (Ordered Packet)) → Before c none
Before-none none = tt
Before-none (some c) = tt

after_empty :
    (c : Option (Ordered Packet)) (xs : List (Ordered Packet)) → length xs ≡ 0 → AfterClose c xs
after_empty none xs h = tt
after_empty (some c) [] h = λ e. tt
after_empty (some c) (x ∷ xs) h = absurd (omega arith)

All-append_one :
    (c : ℕ) (xs : List (Ordered Packet)) (p : Ordered Packet)
    → All (λ q. c < q.orderid) xs
    → c < p.orderid
    → All (λ q. c < q.orderid) (xs ++ p ∷ [])
All-append_one c [] p a h = (h, tt)
All-append_one c (x ∷ xs) p a h = (a.0, All-append_one c xs p a.1 h)

All-remove :
    (c : ℕ) (xs : List (Ordered Packet)) (p : Ordered Packet) (ys : List (Ordered Packet))
    → All (λ q. c < q.orderid) (xs ++ p ∷ ys)
    → All (λ q. c < q.orderid) (xs ++ ys)
All-remove c [] p ys a = a.1
All-remove c (x ∷ xs) p ys a = (a.0, All-remove c xs p ys a.1)

pub after_append :
    (c : Option (Ordered Packet)) (xs : List (Ordered Packet)) (p : Ordered Packet)
    → AfterClose c xs
    → Before c (some p)
    → AfterClose c (xs ++ p ∷ [])
after_append none xs p a h = tt
after_append (some c) xs p a h = λ e. All-append_one c.orderid xs p (a e) h

pub after_start :
    (c : Option (Ordered Packet)) (p : Ordered Packet) (ps xs : List (Ordered Packet))
    → AfterClose c (p ∷ ps)
    → AfterClose c xs
    → AfterClose c ps × AfterClose c (xs ++ p ∷ [])
after_start none p ps xs a b = (tt, tt)
after_start (some c) p ps xs a b = (λ e. (a e).1, λ e. All-append_one c.orderid xs p (b e) (a e).0)

pub after_remove :
    (c : Option (Ordered Packet)) (xs : List (Ordered Packet)) (p : Ordered Packet)
    (ys : List (Ordered Packet))
    → AfterClose c (xs ++ p ∷ ys)
    → AfterClose c (xs ++ ys)
after_remove none xs p ys a = tt
after_remove (some c) xs p ys a = λ e. All-remove c.orderid xs p ys (a e)

-- A packet that the dispatcher takes while nothing is in the hands of a worker, if it is a close.
pub after_taken :
    (p : Ordered Packet) (xs : List (Ordered Packet))
    → (is_close p.content ≡ true → length xs ≡ 0)
    → AfterClose (some p) xs
after_taken p xs h e = after_empty (some p) xs (h e) e
