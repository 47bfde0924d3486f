-- ===== src/Sensors.antt =====
-- The sensors of the data logger:
-- esp-idf/Hornbill-Industrial-Data-Logger/main/max6675.c and currentSensor.c.
pub mod Thermocouple
pub mod Current
