-- ===== src/Event.antt =====
-- The events of util/event.h, and where they stand in memory. An event loop makes one for each call of its
-- handler.
use mathlib.Core.Option
use network_learn.Base.{ℕ, ◌+◌, ◌≡◌, refl, List, [], ◌∷◌, Option, none, some, Bytes, codes}
use network_learn.Loop.{Report, accepts, closes}

pub data EventType : Type 0 where
  connect_event exception_event : EventType

pub data ConnectState : Type 0 where
  accept close : ConnectState

pub data EventError : Type 0 where
  unknown_error listener_error : EventError

pub record ConnectEvent : Type 0 where
  pub socket : ℕ
  pub state : ConnectState

pub record ExceptionEvent : Type 0 where
  pub error : EventError
  pub message : Bytes

pub data Event : Type 0 where
  connects : ConnectEvent → Event
  excepts : ExceptionEvent → Event

-- `type()`.
abbrev pub event_type : Event → EventType
event_type (connects e) = connect_event
event_type (excepts e) = exception_event

-- What `EventLoop` makes of a report.
abbrev pub event_of : Report → Event
event_of (accepts i) = connects (record { socket = i; state = accept })
event_of (closes i) = connects (record { socket = i; state = close })
event_of Report.listener_error = excepts (record {
  error = EventError.listener_error;
  message = codes "An error occurred in the listener";
})

-- The two `static thread_local` arrays of STATIC_ALLOCATOR, each with the object in it, and how often a
-- destructor has run.
pub record EventSpace : Type 0 where
  pub connect_space : Option ConnectEvent
  pub exception_space : Option ExceptionEvent
  pub destroyed : ℕ

-- `new`.
unfoldable pub new_event : Event → EventSpace → EventSpace
new_event (connects e) s = record s { connect_space = some e }
new_event (excepts e) s = record s { exception_space = some e }

-- What the pointer that `new` has returned shows, for an event of this type.
unfoldable pub shown : EventType → EventSpace → Option Event
shown connect_event s = Option.map connects s.connect_space
shown exception_event s = Option.map excepts s.exception_space

-- `delete` runs the destructor, and then the operator, which runs it again.
unfoldable pub delete_event : EventType → EventSpace → EventSpace
delete_event connect_event s = record s { connect_space = none; destroyed = s.destroyed + 2 }
delete_event exception_event s = record s { exception_space = none; destroyed = s.destroyed + 2 }

-- The events of an event loop, none of which is deleted.
unfoldable pub tell_all : List Report → EventSpace → EventSpace
unfolding new_event
tell_all [] s = s
tell_all (r ∷ rs) s = tell_all rs (new_event (event_of r) s)

shown-new_event : (e : Event) (s : EventSpace) → shown (event_type e) (new_event e s) ≡ some e
unfolding shown new_event
shown-new_event (connects e) s = refl
shown-new_event (excepts e) s = refl

-- A handler that is called with a report sees its event, whatever was reported before in the thread, and
-- no destructor has run.
tell_all_lem :
    (rs : List Report) (r : Report) (s : EventSpace)
    → (shown (event_type (event_of r)) (new_event (event_of r) (tell_all rs s)) ≡ some (event_of r))
      × ((tell_all rs s).destroyed ≡ s.destroyed)
unfolding tell_all
tell_all_lem rs r s = (shown-new_event (event_of r) (tell_all rs s), undestroyed rs s)
  where
    undestroyed : (rs : List Report) (s : EventSpace) → (tell_all rs s).destroyed ≡ s.destroyed
    undestroyed [] s = refl
    undestroyed (accepts i ∷ rs) s = undestroyed rs (new_event (event_of (accepts i)) s)
    undestroyed (closes i ∷ rs) s = undestroyed rs (new_event (event_of (closes i)) s)
    undestroyed (Report.listener_error ∷ rs) s =
        undestroyed rs (new_event (event_of Report.listener_error) s)
