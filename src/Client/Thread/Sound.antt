-- ===== src/Client/Thread/Sound.antt =====
-- The invariant of `client_thread` of src/client.c, and what a round keeps while the channels change.
