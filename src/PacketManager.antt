-- ===== src/PacketManager.antt =====
-- packet-manager.go: the controller that sends responses in the order of their requests.
-- One step is one round of the `select` in `controller`: a request or a response taken from its
-- channel, or the end. The mutex-free state belongs to that goroutine alone.
pub mod Sorting
pub mod Order
pub mod Delivery
pub mod Dispatch
use sftp_go.Base.{
  ℕ, suc, ◌+◌, ◌%◌, ◌^◌, Option, none, some, List, [], ◌∷◌, ◌++◌, ◌==◌, if◌then◌else◌, length, ltb,
}
use sftp_go.Allocator.{Allocator, release_pages}

-- `orderedRequest` and `orderedResponse`: a packet with its order id.
pub record Ordered (A : Type 0) : Type 0 where
  pub content : A
  pub orderid : ℕ

-- `sort.Slice` by order id. The ids are distinct, so every sort gives the same list.
unfoldable pub insert : {A : Type 0} → Ordered A → List (Ordered A) → List (Ordered A)
insert x [] = x ∷ []
insert x (y ∷ ys) = if ltb y.orderid x.orderid then y ∷ insert x ys else x ∷ y ∷ ys

unfoldable pub sort : {A : Type 0} → List (Ordered A) → List (Ordered A)
sort [] = []
sort (x ∷ xs) = insert x (sort xs)

-- What the controller keeps, for requests in `A` and responses in `B`; `sent` is what it has handed
-- to the connection, oldest first.
pub record Manager (A B : Type 0) : Type 0 where
  pub incoming : List (Ordered A)
  pub outgoing : List (Ordered B)
  pub sent : List (Ordered B)
  pub alloc : Option Allocator

-- `newOrderID`: the count of packets, a uint32, after the increment.
unfoldable pub new_order_id : ℕ → ℕ
new_order_id packet_count = (packet_count + 1) % 2 ^ 32

-- `getNextOrderID`.
unfoldable pub get_next_order_id : ℕ → ℕ
get_next_order_id packet_count = (packet_count + 1) % 2 ^ 32

-- `newOrderedRequest` on the packets that a connection delivers one after the other.
unfoldable pub order_all : {A : Type 0} → ℕ → List A → List (Ordered A)
order_all packet_count [] = []
order_all packet_count (p ∷ ps) =
    record { content = p; orderid = new_order_id packet_count }
    ∷ order_all (new_order_id packet_count) ps

abbrev pub release : Option Allocator → ℕ → Option Allocator
release none id = none
release (some a) id = some (release_pages id a)

pub data Event (A B : Type 0) : Type 0 where
  requested : Ordered A → Event A B
  responded : Ordered B → Event A B

module _ {A B : Type 0} where
  unfoldable pub new_manager : Option Allocator → Manager A B
  new_manager alloc = record { incoming = []; outgoing = []; sent = []; alloc = alloc }

  -- The loop of `maybeSendPackets`, over the two lists.
  unfoldable pub send_ready :
      List (Ordered A) → List (Ordered B) → List (Ordered B) → Option Allocator → Manager A B
  send_ready [] outgoing sent alloc = record {
    incoming = [];
    outgoing = outgoing;
    sent = sent;
    alloc = alloc;
  }
  send_ready (i ∷ is) [] sent alloc = record {
    incoming = i ∷ is;
    outgoing = [];
    sent = sent;
    alloc = alloc;
  }
  send_ready (i ∷ is) (o ∷ os) sent alloc =
      let rest = send_ready is os (sent ++ o ∷ []) (release alloc i.orderid) in
      if i.orderid == o.orderid
      then rest
      else record { incoming = i ∷ is; outgoing = o ∷ os; sent = sent; alloc = alloc }

  unfoldable pub maybe_send_packets : Manager A B → Manager A B
  maybe_send_packets s = send_ready s.incoming s.outgoing s.sent s.alloc

  -- One round of `controller`.
  unfoldable pub controller : Manager A B → Event A B → Manager A B
  controller s (requested p) =
      maybe_send_packets (record s { incoming = sort (s.incoming ++ p ∷ []) })
  controller s (responded p) =
      maybe_send_packets (record s { outgoing = sort (s.outgoing ++ p ∷ []) })

  unfoldable pub run : Manager A B → List (Event A B) → Manager A B
  run s [] = s
  run s (e ∷ es) = run (controller s e) es
