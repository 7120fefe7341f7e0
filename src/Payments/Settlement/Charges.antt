-- ===== src/Payments/Settlement/Charges.antt =====
-- What an order asks for.
