-- ===== src/Softi2c/Refused.antt =====
-- Transfers of src/i2c/softi2c.c that the slave refuses.
