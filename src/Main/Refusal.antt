-- ===== src/Main/Refusal.antt =====
-- `setup` of src/main.rs: which options the program starts with.
