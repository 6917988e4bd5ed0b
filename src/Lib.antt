-- ===== src/Lib.antt =====
-- A hotel booking backend: capacity per room type and night, reservations that hold it, bookings
-- that sell it, the price of a stay, the rooms with their guests and their cleaning, the policies of a
-- tenant, and the accounts of its staff.
--
-- The parts and their files. A reservation (apps/reservations) asks for a price, a policy and a
-- guest, then holds capacity for each line through the inventory service (apps/availability), under
-- an idempotency key (apps/shared/services). Converting it moves the held units to sold, and a
-- booking (apps/bookings) is made of it. Every change of a status goes through the workflow runner
-- (apps/shared/workflows), which writes the outbox event and the audit entry in the transaction of
-- the change; the states of the rooms (apps/rooms) use the same runner. On arrival a booking line is
-- given a room (apps/allocation), and the room is cleaned and inspected after it (apps/housekeeping).
-- The policies (apps/policies) and the accounts (apps/accounts) stand beside this flow.
--   Base, Results, Tx: Boolean tests, lists and integers; exceptions as values; transactions as
--     state passing, with transaction.atomic as `atomic`.
--   Table: tables by primary key; VersionedMixin of apps/shared/models/mixins.py.
--   Model: the rows, the closed sets of statuses, and the database as one record of tables.
--   Inventory: apps/availability/models.py (AvailabilitySlot) and repository.py. View is the table
--     as a function from key and date to slot; Window, Writes, OutOfService and Roundtrip prove.
--   Idempotency: apps/shared/services/idempotency.py.
--   Workflow: apps/shared/workflows/runner.py, WorkflowStateGuardMixin, OutboxService, AuditService.
--   Outbox: OutboxRelay of apps/shared/services/outbox.py; Rows, Delivery,
--     Attempts and Sequence prove.
--   DateRange, Money: apps/shared/value_objects.
--   Pricing: the computation of apps/pricing/services.py, with price_breakdown.py; Nights, Stay and
--     Clamp prove.
--   Availability: apps/availability/services.py; Sellable, Horizon, Held and
--     Invariant prove.
--   Rooms: apps/rooms/models.py and RoomStateMachine of services.py; Apply and History prove.
--   Reservations: apps/reservations/models.py, services.py and tasks.py; Reserve models reserve();
--     Frames, Convert and Settled prove the lifecycle, and Capacity (what the holds of the lines
--     write), Reserved and Created (what reserve leaves), Release, Conservation and RoundTrip (what
--     expire and cancel give back) the accounting of units.
--   Bookings: apps/bookings/models.py and services.py; FanOut and Confirmed prove.
--   Allocation: apps/allocation/models.py and services.py (allocate_line); Choice and Chosen (the best
--     vacant room), Locks, CheckIn and Outcome prove.
--   Housekeeping: apps/housekeeping/models.py and services.py; Calls and Moves prove.
--   Occupancy: the booking lines that those two check in and out, against the states of the rooms.
--   Policies: apps/policies/models.py and services.py; Answers are the rules read as a dictionary,
--     Effect and Resolution prove what resolve answers, Publication what publish leaves, and Frozen,
--     Writes, Calls and History what becomes of a published version.
--   Accounts: apps/accounts/models.py and services.py on a state of their own, Directory. Lockout
--     models AccountService and AuthService, Mfa MfaService, Invitations InvitationService and
--     RoleService, Members MembershipService; SignIn, Counting, Devices, Challenge, Grants and
--     Redemption prove.
--   Tests: runs at concrete data.
--
-- The correspondence. A function of the source has the name of the definition. A date is its
-- proleptic ordinal, a moment a number of seconds since the epoch, a currency a number. An id is a
-- number; one sequence (`next_id`) serves all tables, where the source has one for each, which only
-- makes ids distinct in more cases. Quantities are natural numbers. Python's integers are
-- unbounded, and so are these; Decimal's 28 digits and the range of an inserted unit count are
-- written out. A raise is `err`; what a computation wrote before it stays written unless it stands
-- in `atomic`. One transaction runs at a time: the row locks of select_for_update and the unique
-- index make concurrent ones serial, and what the loser of a race sees is a branch of its own
-- (IntegrityError, ConcurrencyError). Every loop runs over a list or counts down, so no fuel is
-- needed. Whether a workflow is active is an argument of the guarded save. The settings, the hash
-- of a payload and the dates for which availability_slot has a partition are the record `Env`; the
-- services that reserve() asks are the record `Services`; the uuid of an event's name and the
-- failures of the database are fields of `OutboxRelay`. Django's authenticate with its password
-- check is a field of `Auth`, used only as Django documents it (`IsBackend`); the check of a TOTP
-- code and the hash of a token are arguments.
--
-- Not modelled: the projector of room states, the services of rate plans, rooms, guests,
-- notifications and tenants, the bytes of TOTP and encryption, the HTTP views, migrations, settings,
-- and the frontend. Random references (reservation_ref, booking_ref), the guest snapshot, created and
-- updated stamps and free texts are left out of the rows.
pub mod Accounts
pub mod Base
pub mod Results
pub mod Tx
pub mod Table
pub mod Inventory
pub mod Money
pub mod Policies
pub mod Pricing
pub mod Model
pub mod Outbox
pub mod Idempotency
pub mod Workflow
pub mod DateRange
pub mod Availability
pub mod Rooms
pub mod Reservations
pub mod Bookings
pub mod Allocation
pub mod Housekeeping
pub mod Occupancy
pub mod Tests
